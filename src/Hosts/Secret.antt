-- ===== src/Hosts/Secret.antt =====
-- How src/hosts.rs stores the password of a host: `hex`, `unhex`, `encrypt_password_in` and
-- `decrypt_password_in`. The cipher and the check for UTF-8 are parameters, the key and the nonce arguments;
-- bytes are numbers.
use mathlib.Core.Option.{Option, none, some}
use cangling_update.Base.{
  ℕ, ◌+◌, ◌-◌, ◌*◌, ◌/◌, ◌%◌, not, ◌&&◌, ◌==◌, List, [], ◌∷◌, ◌++◌, leb, if◌then◌else◌, length,
}
use cangling_update.Text.{Text, text, text_eq, split, split_by}
use cangling_update.Errors.{Result, ok, err, internal, refuse_if, ◌>>=◌, ◌>>◌}
use cangling_update.Storage.Mount.{hex_digit}

-- The four high bits, then the four low ones.
unfoldable pub hex_bytes : List ℕ → Text
hex_bytes [] = []
hex_bytes (b ∷ bs) = hex_digit (b / 16) ∷ hex_digit (b % 16) ∷ hex_bytes bs

unfoldable pub unhex_digit : ℕ → Result ℕ
unhex_digit c =
    if leb b'0' c && leb c b'9'
    then ok (c - b'0')
    else if leb b'a' c && leb c b'f'
    then ok (c - b'a' + 10)
    else if leb b'A' c && leb c b'F'
    then ok (c - b'A' + 10)
    else err (internal (text "主机密码编码无效"))

-- An odd length and a character that is no digit have one error.
unfoldable pub unhex : Text → Result (List ℕ)
unfolding unhex_digit
unhex [] = ok []
unhex (a ∷ []) = err (internal (text "主机密码编码无效"))
unhex (a ∷ b ∷ rest) = do
  high ← unhex_digit a
  low ← unhex_digit b
  bytes ← unhex rest
  ok ((high * 16 + low) ∷ bytes)

pub record Cipher : Type 0 where
  pub encrypt : List ℕ → List ℕ → List ℕ → List ℕ
  pub decrypt : List ℕ → List ℕ → List ℕ → Option (List ℕ)
  pub as_bytes : Text → List ℕ
  pub from_utf8 : List ℕ → Option Text

unfoldable pub encrypt_password_in : Cipher → List ℕ → List ℕ → Text → Text
unfolding hex_bytes
encrypt_password_in cipher key nonce password =
    text "v1:"
    ++ (hex_bytes nonce ++ b':' ∷ hex_bytes (cipher.encrypt key nonce (cipher.as_bytes password)))

abbrev pub some_or {ℓ} : {A : Type ℓ} → Text → Option A → Result A
some_or e none = err (internal e)
some_or e (some a) = ok a

-- Exactly three parts, the first of which is the version.
abbrev pub parts_of : List Text → Option (Text × Text)
parts_of (v ∷ nonce ∷ ciphertext ∷ []) =
    if text_eq v (text "v1") then some (nonce, ciphertext) else none
parts_of _ = none

unfoldable pub decrypt_password_in : Cipher → List ℕ → Text → Result Text
unfolding unhex split_by
decrypt_password_in cipher key value = do
  parts ← some_or (text "主机密码格式无效") (parts_of (split b':' value))
  nonce ← unhex parts.0
  ciphertext ← unhex parts.1
  refuse_if (not (length nonce == 24)) (internal (text "主机密码 nonce 无效"))
  plain ← some_or (text "无法解密主机密码") (cipher.decrypt key nonce ciphertext)
  some_or (text "主机密码不是有效文本") (cipher.from_utf8 plain)
