-- ===== src/TestLog/Decode.antt =====
-- `TextDecoder`, which the browser provides: the bytes of a log become text through it.
use xrpl_hive.Base.{Bool, ◌≡◌, refl, ◌<◌, Bytes, Text, All}

-- What the log holds where the viewer counts text and bytes alike.
abbrev pub Ascii : Bytes → Type 0
Ascii = All (λ b. b < 128)

-- `decode s bytes stream` is the call of `decode` on a decoder in state `s`: the next state, and the
-- text. `Idle` holds in a state with no unfinished character; from there ASCII is decoded to itself.
pub record TextDecoder : Type 1 where
  pub State : Type 0
  pub fresh : State
  pub decode : State → Bytes → Bool → State × Text
  pub Idle : State → Type 0
  pub fresh-Idle : Idle fresh
  pub decode-Idle :
      (s : State) (bytes : Bytes) (stream : Bool)
      → Idle s
      → Ascii bytes
      → Idle (decode s bytes stream).0
  pub decode_ascii :
      (s : State) (bytes : Bytes) (stream : Bool)
      → Idle s
      → Ascii bytes
      → (decode s bytes stream).1 ≡ bytes

-- A decoder for tests: the bytes are the text.
abbrev pub byte_decoder : TextDecoder
byte_decoder = record {
  State = Unit {0};
  fresh = tt;
  decode = λ s bytes stream. (s, bytes);
  Idle = λ s. Unit {0};
  fresh-Idle = tt;
  decode-Idle = λ s bytes stream h a. tt;
  decode_ascii = λ s bytes stream h a. refl;
}
