-- ===== src/Tests/Codec.antt =====
-- Bytes as text: runs of the letter a that end with the letter b.
use chain_watch.Prelude.{
  ℕ, zero, suc, ◌+◌, ◌≡◌, ◌∙◌, refl, ap, String, ◌==◌, nat_eq, Option, none, some, List, [], ◌∷◌,
  arith, if◌then◌else◌,
}
use Prim.Native.Char.{char, code}
use Prim.Native.String.{[] as no_text, ◌∷◌ as push}

pub unary : ℕ → String → String
unary zero rest = push (char 98 tt) rest
unary (suc n) rest = push (char 97 tt) (unary n rest)

unfoldable pub encode : List ℕ → String
encode [] = no_text
encode (n ∷ ns) = unary n (encode ns)

prepend : ℕ → Option (List ℕ) → Option (List ℕ)
prepend n none = none
prepend n (some ns) = some (n ∷ ns)

pub decode : ℕ → String → Option (List ℕ)
decode n no_text = some []
decode n (push c s) =
    let longer = decode (suc n) s in
    let rest = prepend n (decode 0 s) in if code c == 97 then longer else rest

decode-unary : (n m : ℕ) (rest : String) → decode m (unary n rest) ≡ prepend (n + m) (decode 0 rest)
unfolding decode unary
decode-unary zero m rest = ap (λ k. prepend k (decode 0 rest)) (omega arith)
decode-unary (suc n) m rest =
    decode-unary n (suc m) rest ∙ ap (λ k. prepend k (decode 0 rest)) (omega arith)

pub decode-encode : (ns : List ℕ) → decode 0 (encode ns) ≡ some ns
unfolding decode encode prepend
decode-encode [] = refl
decode-encode (n ∷ ns) =
    decode-unary n 0 (encode ns)
    ∙ ap (prepend (n + 0)) (decode-encode ns)
    ∙ ap (λ k. some (k ∷ ns)) (omega arith)

pub unary_not_blank : (n : ℕ) (rest : String) → unary n rest ≡ "" → ⊥
unfolding unary
unary_not_blank zero rest h = cc
unary_not_blank (suc n) rest h = cc
