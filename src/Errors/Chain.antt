-- ===== src/Errors/Chain.antt =====
-- `IgnoreCAPIErrorForField` for one field after another, as the webhooks call it.
use azure_admission_controll.Prelude.{
  ap, sym, ◌∙◌, String, List, [], ◌∷◌, Option, none, some, Bool, true, not, ◌≡◌, ◌≢◌, refl, ◌↔◌,
  ◌⊎◌, inl, inr, starts_with, arith, keep_complete, keep_sound, any, Memᴰ, Bool-cases,
}
use azure_admission_controll.Error.{Status, StatusCause, api_status}
use azure_admission_controll.Result.{Check, ok, err, panic, accept}
use azure_admission_controll.Errors.{is_for, remaining, ignore_capi_error_for_field}
use azure_admission_controll.Errors.Ignored.{
  cut, Ignored, stays_other, stays_bare, gone, unreadable, left, ignore-Ignored,
}

abbrev pub ignore_each : List String → Check → Check
ignore_each [] r = r
ignore_each (field ∷ fields) r = ignore_each fields (ignore_capi_error_for_field field r)

abbrev is_for_any : List String → StatusCause → Bool
is_for_any fields c = any (λ field. starts_with c.field field) fields

-- The error is an Invalid status, each of whose causes is about one of the fields.
pub record IsOnlyAboutAny (fields : List String) (status : Status) : Type 0 where
  pub invalid : status.reason ≡ "Invalid"
  pub causes : List StatusCause
  pub listed : status.details ≡ some causes
  pub about : (c : StatusCause) → Memᴰ c causes → is_for_any fields c ≡ true

-- There is no error, or one that is about these fields alone, whose message can be rewritten each time.
pub data Passes (fields : List String) (r : Check) : Type 0 where
  no_error : r ≡ accept → Passes fields r
  ignored :
      (status : Status)
      → r ≡ err (api_status status)
      → IsOnlyAboutAny fields status
      → ignore_each fields r ≢ panic
      → Passes fields r

ignore_each-accept : (fields : List String) → ignore_each fields accept ≡ accept
unfolding ignore_capi_error_for_field
ignore_each-accept [] = refl
ignore_each-accept (f ∷ fs) = ignore_each-accept fs

ignore_each-panic : (fields : List String) → ignore_each fields panic ≡ panic
unfolding ignore_capi_error_for_field
ignore_each-panic [] = refl
ignore_each-panic (f ∷ fs) = ignore_each-panic fs

-- What is left of an error is about the other fields, so the error is about the field or those.
left_about :
    (field : String) (fields : List String) (causes rest : List StatusCause)
    → remaining field causes ≡ rest
    → ((c : StatusCause) → Memᴰ c rest → is_for_any fields c ≡ true)
    → (c : StatusCause) → Memᴰ c causes
    → is_for_any (field ∷ fields) c ≡ true
left_about field fields causes rest e h c m = elim (Bool-cases (is_for field c)) [
  | inl here ↦ ground arith
  | inr other ↦
      let kept : Memᴰ c (remaining field causes) =
        keep_complete (λ d. not (is_for field d)) causes m (ground arith) in
      ground (arith, h c (rw e at kept))
]

about_left :
    (field : String) (fields : List String) (causes rest : List StatusCause)
    → remaining field causes ≡ rest
    → ((c : StatusCause) → Memᴰ c causes → is_for_any (field ∷ fields) c ≡ true)
    → (c : StatusCause) → Memᴰ c rest
    → is_for_any fields c ≡ true
about_left field fields causes rest e h c m =
    let kept : Memᴰ c (remaining field causes) = rw e m in
    let (listed, other) = keep_sound (λ d. not (is_for field d)) causes kept in
    ground (arith, h c listed)

abbrev OnlyAbout : List String → Check → Type 0
OnlyAbout fields r =
    (r ≡ accept)
    ⊎ ((status : Status) × (r ≡ err (api_status status)) × IsOnlyAboutAny fields status)

one_sound :
    (field : String) (fields : List String) (status : Status) {r : Check}
    → Ignored field status r
    → OnlyAbout fields r
    → IsOnlyAboutAny (field ∷ fields) status
one_sound field fields status (stays_other e) (inl h) = absurd cc
one_sound field fields status (stays_other e) (inr (st, same, o)) =
    absurd (e (let same' : status ≡ st = cc in rw same' o.invalid))
one_sound field fields status (stays_bare d) (inl h) = absurd cc
one_sound field fields status (stays_bare d) (inr (st, same, o)) =
    let same' : status ≡ st = cc in
    let listed : status.details ≡ some o.causes = rw same' o.listed in absurd (bare d listed)
  where
    bare : {o : Option (List StatusCause)} {l : List StatusCause} → o ≡ none → o ≡ some l → ⊥
    bare e f = cc
one_sound field fields status (gone causes i d e) o = record {
  invalid = i;
  causes = causes;
  listed = d;
  about = left_about field fields causes [] e (λ c m. elim m [ ]);
}
one_sound field fields status unreadable (inl h) = absurd cc
one_sound field fields status unreadable (inr (st, same, o)) = absurd cc
one_sound field fields status (left causes prefix c cs i d e) (inl h) = absurd cc
one_sound field fields status (left causes prefix c cs i d e) (inr (st, same, o)) = record {
  invalid = i;
  causes = causes;
  listed = d;
  about =
      let same' : cut status prefix (c ∷ cs) ≡ st = cc in
      let listed : some (c ∷ cs) ≡ some o.causes =
        ap (λ (s : Status). s.details) same' ∙ o.listed in
      let whole : c ∷ cs ≡ o.causes = cc in
      left_about field fields causes (c ∷ cs) e (rw whole o.about);
}

each_sound : (fields : List String) (r : Check) → ignore_each fields r ≡ accept → OnlyAbout fields r
unfolding ignore_capi_error_for_field
each_sound [] r h = inl h
each_sound (f ∷ fs) (ok u) h = inl refl
each_sound (f ∷ fs) panic h = absurd (ground (arith, ignore_each-panic fs))
each_sound (f ∷ fs) (err (api_status status)) h = inr (
  status,
  refl,
  one_sound f fs status (ignore-Ignored f status)
      (each_sound fs (ignore_capi_error_for_field f (err (api_status status))) h),
)
each_sound (f ∷ fs) (err e) h = elim (each_sound fs (err e) h) [
  | inl same ↦ inl same
  | inr (st, same, o) ↦ absurd cc
]

abbrev Finishes : List String → Type 0
Finishes fields =
    (status : Status) (c : StatusCause) (o : IsOnlyAboutAny fields status)
    → Memᴰ c o.causes
    → ignore_each fields (err (api_status status)) ≢ panic
    → ignore_each fields (err (api_status status)) ≡ accept

one_complete :
    (field : String) (fields : List String) (status : Status)
    → Finishes fields
    → IsOnlyAboutAny (field ∷ fields) status
    → {r : Check} → Ignored field status r
    → ignore_each fields r ≢ panic
    → ignore_each fields r ≡ accept
one_complete field fields status rest o (stays_other e) n = absurd (e o.invalid)
one_complete field fields status rest o (stays_bare d) n = absurd (bare d o.listed)
  where
    bare : {o : Option (List StatusCause)} {l : List StatusCause} → o ≡ none → o ≡ some l → ⊥
    bare e f = cc
one_complete field fields status rest o (gone causes i d e) n = ignore_each-accept fields
one_complete field fields status rest o unreadable n = absurd (n (ignore_each-panic fields))
one_complete field fields status rest o (left causes prefix c cs i d e) n =
    let listed : some causes ≡ some o.causes = sym d ∙ o.listed in
    let whole : causes ≡ o.causes = cc in
    rest (cut status prefix (c ∷ cs)) c
      (record {
        invalid = i;
        causes = c ∷ cs;
        listed = refl;
        about = about_left field fields causes (c ∷ cs) e (rw whole o.about);
      })
      (Memᴰ.head refl) n

each_complete : (field : String) (fields : List String) → Finishes (field ∷ fields)
each_complete field [] status c o m n =
    one_complete field [] status (λ st c' o' m' n'. absurd (ground (arith, o'.about c' m'))) o
      (ignore-Ignored field status) n
each_complete field (g ∷ gs) status c o m n =
    one_complete field (g ∷ gs) status (each_complete g gs) o (ignore-Ignored field status) n

pub ignore_each-Passes :
    (field : String) (fields : List String) (r : Check)
    → (ignore_each (field ∷ fields) r ≡ accept) ↔ Passes (field ∷ fields) r
ignore_each-Passes field fields r = (
  λ h. elim (each_sound (field ∷ fields) r h) [
    | inl same ↦ no_error same
    | inr (status, same, o) ↦
        ignored status same o (λ p. let e : ◌≡◌ {A = Check} panic accept = sym p ∙ h in cc)
  ],
  complete,
)
  where
    later : (fields : List String) → Finishes fields
    later [] status c o m n = absurd (ground (arith, o.about c m))
    later (g ∷ gs) status c o m n = each_complete g gs status c o m n

    complete : Passes (field ∷ fields) r → ignore_each (field ∷ fields) r ≡ accept
    complete (no_error e) = rw e (ignore_each-accept (field ∷ fields))
    complete (ignored status e o n) = rw e (
        one_complete field fields status (later fields) o (ignore-Ignored field status) (rw e at n))
