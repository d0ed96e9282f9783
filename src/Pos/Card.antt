-- ===== src/Pos/Card.antt =====
-- pos/card.go: the simulated card reader and the banks. A draw of `rand.Intn(n)` is an argument
-- below `n`.
use Prim.Native.String.{String, ◌++◌}
use termwire.Common.{
  ℕ, Bool, true, false, ◌==◌, str_eq, if◌then◌else◌, List, [], ◌∷◌, Option, none, some,
}
use termwire.Go.Fmt.{padded, last_four}
use termwire.Message.Responses.{Bank, BankApplication}

pub record CardData : Type 0 where
  pub card_number : String
  pub masked_number : String
  pub holder_name : String
  pub expiry_date : String
  pub cvv : String
  pub available_banks : List BankApplication
  pub has_loyalty_card : Bool
  pub loyalty_points : ℕ
  pub points_value_cents : ℕ

abbrev bank : ℕ → String → Bank
bank n name = record { id = n; name = name }

abbrev pub mock_banks : List Bank
mock_banks =
    bank 1 "Garanti Bankası"
    ∷ bank 2 "İş Bankası"
    ∷ bank 3 "Yapı Kredi"
    ∷ bank 4 "Akbank"
    ∷ bank 5 "Ziraat Bankası"
    ∷ []

abbrev pub mock_bank_applications : List BankApplication
mock_bank_applications =
    record {
      bank_id = 1;
      bank_name = "Garanti Bankası";
      app_label = "GARANTI BONUS";
      aid = "A0000000041010";
      priority = 1;
      supports_loyalty = true;
    }
    ∷ record {
      bank_id = 2;
      bank_name = "İş Bankası";
      app_label = "MAXIMUM";
      aid = "A0000000042010";
      priority = 2;
      supports_loyalty = true;
    }
    ∷ record {
      bank_id = 3;
      bank_name = "Yapı Kredi";
      app_label = "WORLD";
      aid = "A0000000043010";
      priority = 3;
      supports_loyalty = false;
    }
    ∷ []

-- SimulatedCardReader: the card in the slot.
pub record CardReader : Type 0 where
  pub current_card : Option CardData

abbrev pub new_card_reader : CardReader
new_card_reader = record { current_card = none }

-- The draws are of `rand.Intn` at 10 ^ 12, at 2 and at 50000.
unfoldable pub simulated_card : ℕ → ℕ → ℕ → CardData
unfolding padded last_four
simulated_card number coin points =
    let card_number = "5406" ++ padded 12 number in
    record {
      card_number = card_number;
      masked_number = "540600******" ++ last_four card_number;
      holder_name = "JOHN DOE";
      expiry_date = "12/26";
      cvv = "123";
      available_banks = mock_bank_applications;
      has_loyalty_card = coin == 1;
      loyalty_points = points;
      points_value_cents = if coin == 1 then points else 0;
    }

unfoldable pub simulate_card_insertion : ℕ → ℕ → ℕ → CardReader → CardData × CardReader
simulate_card_insertion number coin points cr =
    let card = simulated_card number coin points in (card, record cr { current_card = some card })

unfoldable pub get_current_card : CardReader → Option CardData
get_current_card cr = cr.current_card

unfoldable pub remove_card : CardReader → CardReader
remove_card cr = record cr { current_card = none }

unfoldable pub get_banks : List Bank
get_banks = mock_banks

has_bank : ℕ → List Bank → Bool
has_bank n [] = false
has_bank n (b ∷ bs) = if b.id == n then true else has_bank n bs

unfoldable pub validate_bank : ℕ → Bool
unfolding has_bank
validate_bank n = has_bank n mock_banks

find_application : String → List BankApplication → Option BankApplication
find_application a [] = none
find_application a (p ∷ ps) = if str_eq p.aid a then some p else find_application a ps

unfoldable pub get_bank_application : String → Option BankApplication
unfolding find_application
get_bank_application a = find_application a mock_bank_applications
