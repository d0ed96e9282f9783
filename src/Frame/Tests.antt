-- ===== src/Frame/Tests.antt =====
-- The theorems on frames at concrete frames.
use termwire.Common.{
  ◌≡◌, refl, ℕ, ◌+◌, List, [], ◌∷◌, ◌++◌, if◌then◌else◌, arith, length, drop, set, IsBytes,
}
use termwire.Frame.{
  Frame, new_frame, serialize, is_valid, parse_frame, calculate_length, frame_type_data,
}
use termwire.Frame.Agreement.{read_frame-parse_frame}
use termwire.Frame.Corruption.{read_frame_corrupted}
use termwire.Frame.Reader.{eof, ok, err, crc_mismatch, read_frame}
use termwire.Frame.RoundTrip.{IsFrame, new_frame-IsFrame, new_frame-is_valid, read_frame-serialize}

abbrev payload : List ℕ
payload = 8 ∷ 2 ∷ 255 ∷ []

payload-IsBytes : IsBytes payload
payload-IsBytes = (omega arith, (omega arith, (omega arith, tt)))

abbrev sample : Frame
sample = new_frame frame_type_data 517 payload

sample-IsFrame : IsFrame sample
sample-IsFrame =
    new_frame-IsFrame frame_type_data 517 payload (omega arith) (omega arith) (omega arith)
      (omega arith) payload-IsBytes

read_frame-serialize_example :
    read_frame eof ((84 ∷ 3 ∷ []) ++ (serialize sample ++ (2 ∷ [])))
    ≡ (if is_valid sample then ok sample else err crc_mismatch, 2 ∷ [])
read_frame-serialize_example =
    read_frame-serialize eof (84 ∷ 3 ∷ []) (2 ∷ []) sample (omega arith, (omega arith, tt))
      sample-IsFrame

read_frame_corrupted_example :
    read_frame eof ([] ++ (set (serialize sample) (10 + 2) 254 ++ [])) ≡ (err crc_mismatch, [])
unfolding new_frame
read_frame_corrupted_example =
    read_frame_corrupted eof [] [] sample 2 254 tt sample-IsFrame
      (new_frame-is_valid frame_type_data 517 payload (omega arith) (omega arith)) (omega arith)
      (omega arith) (omega arith)

-- The sample on the wire, and a byte behind it.
abbrev received : List ℕ
received =
    2 ∷ 84 ∷ 87 ∷ 1 ∷ 0 ∷ 3 ∷ 3 ∷ 2 ∷ 5 ∷ 0 ∷ 8 ∷ 2 ∷ 255 ∷ 225 ∷ 182 ∷ 217 ∷ 129 ∷ 3 ∷ 9 ∷ []

abbrev sent : Frame
sent = record {
  version = 1;
  frame_type = frame_type_data;
  sequence = 517;
  payload = payload;
  crc32 = 3786856833;
}

received-IsBytes : IsBytes received
received-IsBytes = (
  omega arith,
  (
    omega arith,
    (
      omega arith,
      (
        omega arith,
        (
          omega arith,
          (
            omega arith,
            (
              omega arith,
              (
                omega arith,
                (
                  omega arith,
                  (
                    omega arith,
                    (
                      omega arith,
                      (
                        omega arith,
                        (
                          omega arith,
                          (
                            omega arith,
                            (
                              omega arith,
                              (omega arith, (omega arith, (omega arith, (omega arith, tt)))),
                            ),
                          ),
                        ),
                      ),
                    ),
                  ),
                ),
              ),
            ),
          ),
        ),
      ),
    ),
  ),
)

read_frame-parse_frame_example : read_frame eof received ≡ (
  if is_valid sent then ok sent else err crc_mismatch,
  drop (calculate_length (length sent.payload)) received,
)
unfolding parse_frame
read_frame-parse_frame_example = read_frame-parse_frame eof received sent received-IsBytes refl
