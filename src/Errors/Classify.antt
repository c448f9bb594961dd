-- ===== src/Errors/Classify.antt =====
-- What `ClassifyError` does to an error that crosses a package boundary.
use chain_watch.Prelude.{
  String, true, false, ◌||◌, ◌≡◌, refl, ap, inl, inr, arith, ◌==◌, Bool-cases, beq_refl,
}
use chain_watch.Errors.{
  GoError, Sentinel, sentinel_eq, sentinel_beq_iff, is, is_nil, new_domain_error, classify_error,
}

pub is-new_domain_error :
    (category target : Sentinel) (operation : String) (cause : GoError)
    → is (new_domain_error category operation cause) target
      ≡ (category == target || is cause target)
unfolding new_domain_error is
is-new_domain_error category target operation cause = refl

pub is_nil-new_domain_error :
    (category : Sentinel) (operation : String) (cause : GoError)
    → is_nil (new_domain_error category operation cause) ≡ false
unfolding new_domain_error
is_nil-new_domain_error category operation cause = refl

-- Classifying an error that is not nil adds the category to what `errors.Is` finds in it, and
-- neither removes nor adds anything else.
pub is-classify_error :
    (e : GoError) (category target : Sentinel) (operation : String)
    → is_nil e ≡ false
    → is (classify_error e category operation) target ≡ (category == target || is e target)
unfolding classify_error
is-classify_error e category target operation present = elim (Bool-cases (category == target)) [
  | inl same ↦ ground (
    arith,
    is-new_domain_error category target operation e,
    ap (is e) ((sentinel_beq_iff category target).0 same),
  )
  | inr differ ↦ ground (arith, is-new_domain_error category target operation e)
]

-- Classifying twice under one category is classifying once, whatever the two operations are called.
classify_error_idem :
    (e : GoError) (category : Sentinel) (outer inner : String)
    → classify_error (classify_error e category inner) category outer
      ≡ classify_error e category inner
unfolding classify_error
classify_error_idem e category outer inner = ground (
  arith,
  is-new_domain_error category category inner e,
  beq_refl category,
  is_nil-new_domain_error category inner e,
)

-- An error that is not nil is, once classified, one of its category, and still all that it was.
pub classify_error-category :
    (e : GoError) (category : Sentinel) (operation : String)
    → is_nil e ≡ false
    → is (classify_error e category operation) category ≡ true
classify_error-category e category operation present =
    rw (is-classify_error e category category operation present, beq_refl category) refl

pub classify_error_keeps :
    (e : GoError) (category : Sentinel) (operation : String)
    → is_nil e ≡ false
    → (target : Sentinel) → is e target ≡ true
    → is (classify_error e category operation) target ≡ true
classify_error_keeps e category operation present target found =
    ground (arith, is-classify_error e category target operation present)
