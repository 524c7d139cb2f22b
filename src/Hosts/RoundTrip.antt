-- ===== src/Hosts/RoundTrip.antt =====
-- A stored password is read back.
use mathlib.Core.Option.{some}
use cangling_update.Base.{
  ℕ, ◌/◌, ◌%◌, ◌<◌, true, false, ◌==◌, List, [], ◌∷◌, ◌++◌, any, length, ◌≡◌, refl, ap, ◌∙◌, arith,
  All,
}
use cangling_update.Text.{Text, text, text_eq_refl, split, split_by}
use cangling_update.Errors.{ok}
use cangling_update.Storage.Mount.{hex_digit}
use cangling_update.Hosts.Secret.{
  hex_bytes, unhex_digit, unhex, Cipher, encrypt_password_in, decrypt_password_in,
}

unhex_digit-hex_digit : (d : ℕ) → d < 16 → unhex_digit (hex_digit d) ≡ ok d
unfolding unhex_digit
unhex_digit-hex_digit d h = ground (arith, h)

abbrev pub AreBytes : List ℕ → Type 0
AreBytes bs = All (λ b. b < 256) bs

-- Bytes are read back from their digits.
pub unhex-hex_bytes : (bs : List ℕ) → AreBytes bs → unhex (hex_bytes bs) ≡ ok bs
unfolding unhex hex_bytes
unhex-hex_bytes [] a = refl
unhex-hex_bytes (b ∷ bs) a =
    let small = a.0 in
    rw
      (
        unhex_digit-hex_digit (b / 16) (omega (arith, small)),
        unhex_digit-hex_digit (b % 16) (omega arith),
        unhex-hex_bytes bs a.1,
      )
      (ap (λ n. ok (n ∷ bs)) (omega arith))

not_colon : (d : ℕ) → (hex_digit d == b':') ≡ false
not_colon d = ground arith

no_colon : (bs : List ℕ) → any (λ c. c == b':') (hex_bytes bs) ≡ false
unfolding hex_bytes
no_colon [] = refl
no_colon (b ∷ bs) = rw (not_colon (b / 16), not_colon (b % 16)) (no_colon bs)

split-plain : (d : ℕ) (s : Text) → any (λ c. c == d) s ≡ false → split d s ≡ s ∷ []
unfolding split_by
split-plain d [] h = refl
split-plain d (c ∷ s) h =
    let e : (c == d) ≡ false = ground arith in rw (e, split-plain d s (ground arith)) refl

split-append :
    (d : ℕ) (s t : Text) → any (λ c. c == d) s ≡ false → split d (s ++ d ∷ t) ≡ s ∷ split d t
unfolding split_by
split-append d [] t h = let e : (d == d) ≡ true = ground arith in rw e refl
split-append d (c ∷ s) t h =
    let e : (c == d) ≡ false = ground arith in rw (e, split-append d s t (ground arith)) refl

-- A value in three parts whose bytes can be decrypted.
decrypt-parts :
    (cipher : Cipher) (key : List ℕ) (value : Text) {a b : Text} {nonce sealed plain : List ℕ}
    {password : Text}
    → split b':' value ≡ text "v1" ∷ a ∷ b ∷ []
    → unhex a ≡ ok nonce
    → unhex b ≡ ok sealed
    → length nonce ≡ 24
    → cipher.decrypt key nonce sealed ≡ some plain
    → cipher.from_utf8 plain ≡ some password
    → decrypt_password_in cipher key value ≡ ok password
unfolding decrypt_password_in
decrypt-parts cipher key value {nonce = nonce} pieces an bs long undone read =
    let exact : (length nonce == 24) ≡ true = ground (arith, long) in
    rw (decrypt_password_in, pieces, text_eq_refl (text "v1"), an, bs, exact, undone, read) refl

-- A password that is encrypted for storage is decrypted to what it was, where the cipher undoes itself,
-- gives bytes, and the nonce has 24 of them.
pub decrypt-encrypt :
    (cipher : Cipher) (key nonce : List ℕ) (password : Text)
    → ((k n p : List ℕ) → cipher.decrypt k n (cipher.encrypt k n p) ≡ some p)
    → ((k n p : List ℕ) → AreBytes (cipher.encrypt k n p))
    → ((t : Text) → cipher.from_utf8 (cipher.as_bytes t) ≡ some t)
    → AreBytes nonce
    → length nonce ≡ 24
    → decrypt_password_in cipher key (encrypt_password_in cipher key nonce password) ≡ ok password
unfolding encrypt_password_in text
decrypt-encrypt cipher key nonce password undoes bytes reads small long =
    let sealed = cipher.encrypt key nonce (cipher.as_bytes password) in
    let pieces : split b':' (encrypt_password_in cipher key nonce password)
        ≡ text "v1" ∷ hex_bytes nonce ∷ hex_bytes sealed ∷ [] =
      split-append b':' (text "v1") (hex_bytes nonce ++ b':' ∷ hex_bytes sealed) refl
      ∙ ap (λ r. text "v1" ∷ r)
          (split-append b':' (hex_bytes nonce) (hex_bytes sealed) (no_colon nonce)
            ∙ ap (λ r. hex_bytes nonce ∷ r)
                (split-plain b':' (hex_bytes sealed) (no_colon sealed))) in
    decrypt-parts cipher key (encrypt_password_in cipher key nonce password) pieces
      (unhex-hex_bytes nonce small)
      (unhex-hex_bytes sealed (bytes key nonce (cipher.as_bytes password))) long
      (undoes key nonce (cipher.as_bytes password)) (reads password)
