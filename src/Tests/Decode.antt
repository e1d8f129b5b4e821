-- ===== src/Tests/Decode.antt =====
-- src/common/incremental_decode.rs: the theorems at a sequence with a character that is cut in two, and at a tokenizer whose
-- tokens are characters.
use oxydllm.Base.{ℕ, zero, suc, ◌≡◌, refl, List, [], ◌∷◌, Option, some, arith}
use oxydllm.IncrementalDecode.{Tokenizer, IncrementalDecoder, decoded, ends_with_replacement, push}
use oxydllm.Tests.Halves.{halves, neutral, halves-Decodes}
use oxydllm.IncrementalDecode.Window.{Advanced, push-Advanced}
use oxydllm.IncrementalDecode.Stream.{Whole, streamed, streamed-decoded}

abbrev characters : Tokenizer
characters = record { decode = λ ids. some ids; encode = λ text. some text }

-- "c", "a", "f", the two halves of "é", " ", "a", "u", " ".
abbrev sequence : List ℕ
sequence = b'c' ∷ b'a' ∷ b'f' ∷ 1 ∷ 2 ∷ b' ' ∷ b'a' ∷ b'u' ∷ b' ' ∷ []

sequence-Whole : Whole halves sequence
unfolding decoded ends_with_replacement
sequence-Whole zero h = (0, omega arith, omega arith, refl)
sequence-Whole (suc zero) h = (1, omega arith, omega arith, refl)
sequence-Whole (suc (suc zero)) h = (2, omega arith, omega arith, refl)
sequence-Whole (suc (suc (suc zero))) h = (3, omega arith, omega arith, refl)
sequence-Whole (suc (suc (suc (suc zero)))) h = (5, omega arith, omega arith, refl)
sequence-Whole (suc (suc (suc (suc (suc zero))))) h = (5, omega arith, omega arith, refl)
sequence-Whole (suc (suc (suc (suc (suc (suc zero)))))) h = (6, omega arith, omega arith, refl)
sequence-Whole (suc (suc (suc (suc (suc (suc (suc n))))))) h = absurd (omega arith)

streamed-decoded_example : streamed halves neutral sequence ≡ some (decoded halves sequence)
streamed-decoded_example = streamed-decoded halves neutral halves-Decodes sequence sequence-Whole

-- Two tokens are frozen.
abbrev decoder : IncrementalDecoder
decoder = record { decoded_len = 2; stable_end = 2; stable_text = b'c' ∷ b'a' ∷ [] }

push-Advanced_example :
    (out : Option (List ℕ)) × (d' : IncrementalDecoder) × (push characters sequence neutral decoder
      ≡ some (out, d'))
    × Advanced characters sequence neutral decoder d'
push-Advanced_example = push-Advanced characters sequence neutral decoder (omega arith)
