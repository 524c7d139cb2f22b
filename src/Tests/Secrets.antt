-- ===== src/Tests/Secrets.antt =====
-- Words of a shell, and a password under a cipher that writes every byte as ones behind which a zero stands.
use mathlib.Core.Option.{some}
use cangling_update.Base.{ℕ, zero, suc, ◌+◌, [], ◌∷◌, ◌++◌, List, ◌≡◌, refl, ap, ◌∙◌, arith}
use cangling_update.Text.{text}
use cangling_update.Errors.{ok}
use cangling_update.Shell.{plain, read_word, shell_quote, shell_quote_read_back}
use cangling_update.Hosts.Secret.{Cipher, encrypt_password_in, decrypt_password_in}
use cangling_update.Hosts.RoundTrip.{AreBytes, decrypt-encrypt}

shell_quote_read_back_example :
    read_word plain (shell_quote (text "a'b $(c)") ++ text " d") ≡ some (text "a'b $(c)", text " d")
shell_quote_read_back_example =
    shell_quote_read_back (text "a'b $(c)") (text " d") (unfold text in refl)

abbrev ones : ℕ → List ℕ → List ℕ
ones zero rest = 0 ∷ rest
ones (suc n) rest = 1 ∷ ones n rest

abbrev seal : List ℕ → List ℕ
seal [] = []
seal (n ∷ ns) = ones n (seal ns)

abbrev unseal : ℕ → List ℕ → List ℕ
unseal n [] = []
unseal n (zero ∷ rest) = n ∷ unseal 0 rest
unseal n (suc b ∷ rest) = unseal (suc n) rest

unseal-ones : (m n : ℕ) (rest : List ℕ) → unseal m (ones n rest) ≡ (m + n) ∷ unseal 0 rest
unseal-ones m zero rest = ap (λ k. k ∷ unseal 0 rest) (omega arith)
unseal-ones m (suc n) rest = unseal-ones (suc m) n rest ∙ ap (λ k. k ∷ unseal 0 rest) (omega arith)

unseal-seal : (ns : List ℕ) → unseal 0 (seal ns) ≡ ns
unseal-seal [] = refl
unseal-seal (n ∷ ns) =
    unseal-ones 0 n (seal ns)
    ∙ ap (λ r. (0 + n) ∷ r) (unseal-seal ns)
    ∙ ap (λ k. k ∷ ns) (omega arith)

ones-AreBytes : (n : ℕ) (rest : List ℕ) → AreBytes rest → AreBytes (ones n rest)
ones-AreBytes zero rest a = (omega arith, a)
ones-AreBytes (suc n) rest a = (omega arith, ones-AreBytes n rest a)

seal-AreBytes : (ns : List ℕ) → AreBytes (seal ns)
seal-AreBytes [] = tt
seal-AreBytes (n ∷ ns) = ones-AreBytes n (seal ns) (seal-AreBytes ns)

abbrev cipher : Cipher
cipher = record {
  encrypt = λ k n p. seal p;
  decrypt = λ k n c. some (unseal 0 c);
  as_bytes = λ t. t;
  from_utf8 = some;
}

abbrev nonce : List ℕ
nonce = ones 23 []

decrypt-encrypt_example :
    decrypt_password_in cipher [] (encrypt_password_in cipher [] nonce (1 ∷ 2 ∷ []))
    ≡ ok (1 ∷ 2 ∷ [])
decrypt-encrypt_example =
    decrypt-encrypt cipher [] nonce (1 ∷ 2 ∷ []) (λ k n p. ap some (unseal-seal p))
      (λ k n p. seal-AreBytes p) (λ t. refl) (ones-AreBytes 23 [] tt) refl
