-- ===== src/Pos/Tests/Schedules.antt =====
-- Messages of several connections at concrete states.
use termwire.Common.{◌≡◌, refl, [], ◌∷◌, false, str_eq, some, arith}
use termwire.Go.Fmt.{decimal, padded, digits}
use termwire.Go.Time.{unix}
use termwire.Message.{
  Message, payment_processing_request, payment_completion_response, void_transaction_request,
  z_report_request,
}
use termwire.Message.Codec.{Codec}
use termwire.Message.Requests.{PaymentProcessingRequest}
use termwire.Message.Responses.{PaymentCompletionResponse}
use termwire.Pos.Db.{Row, find_row}
use termwire.Pos.Transaction.{Transaction}
use termwire.Pos.Handler.Approval.{response}
use termwire.Pos.Handler.Env.{Env, Handler, answer}
use termwire.Pos.Handler.Pause.{paying, pausing}
use termwire.Pos.Handler.Promise.{GrantsPayment, HoldsCompleted}
use termwire.Pos.Handler.Race.{second_response}
use termwire.Pos.Ledger.{Evolves}
use termwire.Pos.Samples.{
  noon, env, txn, waiting, same_response, same_response_refl, codec, is_active, is_new, sold,
  holding, found, either,
}
use termwire.Pos.Schedule.{Terminal, arrive, resume, Schedules, quiet, arrives, resumes}
use termwire.Pos.Schedule.Laws.{Schedules-Evolves}
use termwire.Pos.Schedule.Race.{arrive_raced}

abbrev request : PaymentProcessingRequest
request = record {
  selected_bank_id = 1;
  use_loyalty_points = false;
  transaction_id = "TXN-1";
  selected_aid = "A0000000041010";
  installment_count = 1;
}

abbrev pay_message : Message
pay_message = record {
  message_id = "MSG-1";
  timestamp = "";
  body = payment_processing_request request;
}

abbrev void : Message
void = record {
  message_id = "MSG-2";
  timestamp = "";
  body = void_transaction_request (record {
    original_transaction_id = "TXN-1";
    reason = "wrong amount";
    currency = "EUR";
    original_confirmation_code = "";
  });
}

abbrev z_report : Message
z_report = record { message_id = "MSG-3"; timestamp = ""; body = z_report_request }

abbrev idle : Handler → Terminal
idle h = record { handler = h; paused = []; answers = [] }

abbrev shop : Terminal
shop = idle (record waiting { manager = holding sold })

abbrev served : Terminal
served = resume codec 0 (arrive codec 2 env z_report (arrive codec 1 env void shop))

served_by : Schedules codec shop served 2
served_by = resumes 0 (arrives 2 env z_report (arrives 1 env void quiet))

Schedules-Evolves_example :
    (s : Row) × (find_row "TXN-1" served.handler.manager.db.rows ≡ some s) × Evolves sold s
Schedules-Evolves_example = Schedules-Evolves codec shop served 2 "TXN-1" sold served_by found

-- The other connection, a second later and with another authorization code.
abbrev later : Env
later = record env {
  clock = λ k. record { seconds = 63900000001; zone = noon.zone };
  rand = λ k. 43;
}

abbrev shared : Transaction
shared = paying later request (paying env request txn)

abbrev paused : Handler
paused =
    pausing later request (paying env request txn) "TXN-1" (pausing env request txn "TXN-1" waiting)

abbrev first_answer : PaymentCompletionResponse
first_answer = response env paused shared

abbrev second_answer : PaymentCompletionResponse
second_answer = second_response env later paused shared

abbrev both : Codec PaymentCompletionResponse
both = either second_answer first_answer

differ : same_response second_answer first_answer ≡ false
unfolding str_eq decimal padded unix digits
differ = refl

marshals_first : both.marshal first_answer ≡ some (2 ∷ [])
marshals_first = ground (arith, differ, same_response_refl first_answer)

marshals_second : both.marshal second_answer ≡ some (1 ∷ [])
marshals_second = ground (arith, same_response_refl second_answer)

arrive_raced_example :
    let end = resume both 0 (
      resume both 1
        (arrive both 2 later pay_message (arrive both 1 env pay_message (idle waiting)))) in
    ((p p' : PaymentCompletionResponse) × (end.answers
        ≡ (2, answer later (payment_completion_response p'))
          ∷ (1, answer env (payment_completion_response p))
          ∷ [])
      × GrantsPayment env "RCP-8" shared p
      × GrantsPayment later "RCP-8" shared p'
      × (both.marshal p' ≡ some (1 ∷ [])))
    × (end.paused ≡ [])
    × ((r : Row) × (find_row "TXN-1" end.handler.manager.db.rows ≡ some r)
        × HoldsCompleted env "RCP-8" shared r
        × (r.cached_response ≡ 1 ∷ []))
unfolding decimal digits
arrive_raced_example =
    arrive_raced both 1 2 env later pay_message pay_message request request "TXN-1" (idle waiting)
      txn refl refl refl refl refl refl refl is_active refl is_new refl refl 2 [] (1 ∷ []) refl refl
      refl refl refl marshals_first marshals_second
