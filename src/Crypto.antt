-- ===== src/Crypto.antt =====
-- The crates `sha2` and `hex`, which sidecar/src/hasher.rs calls: an interface with the documented
-- behaviour that the program relies on. Nothing here is code of the repository.
pub mod Sample
use ghostcacher.Prelude.{ℕ, ◌*◌, ◌<◌, ◌≡◌, ◌≢◌, List, [], ◌++◌, All, length}
use ghostcacher.Text.{Text, Bytes}

abbrev pub IsBytes : Bytes → Type 0
IsBytes = All (λ b. b < 256)

abbrev pub IsAscii : Text → Type 0
IsAscii = All (λ c. c < 128)

pub record Sha256 : Type 1 where
  pub State : Type 0
  pub init : State
  pub update : State → Bytes → State
  pub finalize : State → Bytes
  pub hex_encode : Bytes → Text
  -- Feeding a message in parts is feeding it whole, and an empty part changes nothing.
  pub update-nil : (s : State) → update s [] ≡ s
  pub update-append : (s : State) (a b : Bytes) → update (update s a) b ≡ update s (a ++ b)
  -- A digest is 32 bytes.
  pub length-finalize : (s : State) → length (finalize s) ≡ 32
  pub finalize-IsBytes : (s : State) → IsBytes (finalize s)
  -- `hex::encode` writes two ASCII digits for each byte, from which the bytes can be read back.
  pub length-hex_encode : (d : Bytes) → length (hex_encode d) ≡ 2 * length d
  pub hex_encode-IsAscii : (d : Bytes) → IsBytes d → IsAscii (hex_encode d)
  pub hex_encode-inj : (d e : Bytes) → IsBytes d → IsBytes e → hex_encode d ≡ hex_encode e → d ≡ e

-- The digest of a whole message.
abbrev pub digest : (sha : Sha256) → Bytes → Bytes
digest sha m = sha.finalize (sha.update sha.init m)
