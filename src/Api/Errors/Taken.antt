-- ===== src/Api/Errors/Taken.antt =====
-- Of what src/uc_api.cpp makes of an answer, only the error for a taken name is ENTRY_ALREADY_EXISTS.
use unity_catalog.Base.{
  ◌∙◌, ap, ◌≡◌, ◌≢◌, ◌↔◌, refl, String, Option, none, some, Bool, true, false, Bool-cases,
  Option-cases, inl, inr, arith, str_eq, List, [], ◌∷◌,
}
use unity_catalog.Json.{Yyjson, Kind, num, str, get?, obj?}
use unity_catalog.Result.{
  Result, ok, err, entry_already_exists, Result-cases, ◌>>=◌, traverse, err-injective,
}
use unity_catalog.Api.Fields.{try_get, try_get_num, try_get_str, text_of}
use unity_catalog.Api.Errors.{
  ApiError, is_already_exists, legacy_error, delta_error, check_error, creation_outcome,
}

module _ {ℓ} {A : Type ℓ} where
  abbrev pub Avoids : Result A → Type ℓ
  Avoids r = r ≢ err entry_already_exists

module _ {ℓ κ} {A : Type ℓ} {C : Type κ} where
  pub >>=-Avoids :
      (m : Result A) (f : A → Result C) → Avoids m → ((a : A) → Avoids (f a)) → Avoids (m >>= f)
  >>=-Avoids (ok a) f h k = k a
  >>=-Avoids (err e) f h k = λ q. h (cc)

pub traverse-Avoids {ℓ κ} :
    {A : Type ℓ} {C : Type κ} (f : A → Result C) (xs : List A)
    → ((a : A) → Avoids (f a))
    → Avoids (traverse f xs)
unfolding traverse
traverse-Avoids f [] h = λ q. cc
traverse-Avoids f (x ∷ xs) h =
    >>=-Avoids (f x) _ (h x) λ y. >>=-Avoids (traverse f xs) _ (traverse-Avoids f xs h) λ ys q. cc

module _ (json : Yyjson) where
  open json use {Val}

  try_get-Avoids {ℓ} :
      {A : Type ℓ} (kind : Kind) (get : Val → A) (obj : Option Val) (field : String) (d : A)
      (fail_on_missing : Bool)
      → Avoids (try_get json kind get obj field d fail_on_missing)
  unfolding try_get
  try_get-Avoids kind get obj field d fail_on_missing = λ q. ground arith

  pub str-Avoids :
      (obj : Option Val) (field : String) (fail_on_missing : Bool)
      → Avoids (try_get_str json obj field fail_on_missing)
  unfolding try_get_str
  str-Avoids obj field fail_on_missing =
      try_get-Avoids str (text_of json) obj field "" fail_on_missing

  pub num-Avoids :
      (obj : Option Val) (field : String) (fail_on_missing : Bool)
      → Avoids (try_get_num json obj field fail_on_missing)
  unfolding try_get_num
  num-Avoids obj field fail_on_missing =
      try_get-Avoids num json.get_uint obj field 0 fail_on_missing

  legacy_error-Avoids : (root : Option Val) → Avoids (legacy_error json root)
  unfolding legacy_error
  legacy_error-Avoids root =
      >>=-Avoids (try_get_str json root "error_code" false) _ (str-Avoids root "error_code" false)
        λ error_code. elim (Bool-cases (str_eq error_code "")) [
          | inl empty ↦ rw empty (λ q. cc)
          | inr code ↦ rw code (
              >>=-Avoids (try_get_str json root "message" false) _ (str-Avoids root "message" false)
                (λ m q. cc))
        ]

  delta_error-Avoids : (root error : Option Val) → Avoids (delta_error json root error)
  unfolding delta_error
  delta_error-Avoids root error =
      >>=-Avoids (try_get_str json error "message" false) _ (str-Avoids error "message" false)
        λ message. elim (Bool-cases (str_eq message "")) [
          | inl empty ↦ rw empty (legacy_error-Avoids root)
          | inr told ↦ rw told (
              >>=-Avoids (try_get_str json error "type" false) _ (str-Avoids error "type" false)
                (λ m q. cc))
        ]

  pub check_error-Avoids : (root : Option Val) → Avoids (check_error json root)
  unfolding check_error
  check_error-Avoids root = elim (Option-cases (obj? json (get? json root "error"))) [
    | inl e ↦ rw (e, check_error) (legacy_error-Avoids root)
    | inr (error, e) ↦ rw (e, check_error) (delta_error-Avoids root (some error))
  ]

  -- An answer that reports a taken name.
  abbrev pub ReportsTaken : Option Val → Type 0
  ReportsTaken root =
      (e : ApiError) × (check_error json root ≡ ok (some e)) × (is_already_exists e ≡ true)

  pub creation_outcome-taken :
      (root : Option Val) (success : Bool)
      → (creation_outcome json root success ≡ err entry_already_exists) ↔ ReportsTaken root
  unfolding creation_outcome
  creation_outcome-taken root success = elim (Result-cases (check_error json root)) [
    | inl (x, e) ↦
        rw (e, creation_outcome)
          (
            λ q. absurd (check_error-Avoids root (e ∙ ap err (err-injective q))),
            λ t. absurd (cc t.1),
          )
    | inr (none, e) ↦ elim (Bool-cases success) [
      | inl good ↦ rw (e, creation_outcome, good) (λ q. absurd (cc q), λ t. absurd (cc t.1))
      | inr bad ↦ rw (e, creation_outcome, bad) (λ q. absurd (cc q), λ t. absurd (cc t.1))
    ]
    | inr (some error, e) ↦ elim (Bool-cases (is_already_exists error)) [
      | inl taken ↦ rw (e, creation_outcome, taken) (λ q. (error, refl, taken), λ t. refl)
      | inr other ↦
          rw (e, creation_outcome, other) (λ q. absurd (cc q), λ t. absurd (cc (t.1, t.2)))
    ]
  ]

  pub creation_outcome-ok :
      (root : Option Val) (success : Bool) {v : Option Val}
      → creation_outcome json root success ≡ ok v
      → (root ≡ v) × (success ≡ true) × (check_error json root ≡ ok none)
  unfolding creation_outcome
  creation_outcome-ok root success h = elim (Result-cases (check_error json root)) [
    | inl (x, e) ↦ absurd (cc (rw (e, creation_outcome) at h))
    | inr (none, e) ↦ elim (Bool-cases success) [
      | inl good ↦ (cc (rw (e, creation_outcome, good) at h), good, e)
      | inr bad ↦ absurd (cc (rw (e, creation_outcome, bad) at h))
    ]
    | inr (some error, e) ↦ absurd (cc (rw (e, creation_outcome) at h))
  ]

  pub creation_outcome-accepts :
      (root : Option Val)
      → check_error json root ≡ ok none
      → creation_outcome json root true ≡ ok root
  unfolding creation_outcome
  creation_outcome-accepts root fine = rw (fine, creation_outcome)
