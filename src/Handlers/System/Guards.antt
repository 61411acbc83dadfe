-- ===== src/Handlers/System/Guards.antt =====
-- handlers/system.rs: where a backup may go, and what a restore needs.
use rsmc_engine.Base.{
  ◌≡◌, refl, true, false, not, ◌&&◌, Option, ◌∷◌, ◌++◌, subst, ◌⊎◌, Text, arith, Bool-cases, inl,
  inr, if◌then◌else◌,
}
use rsmc_engine.Error.{AppError, Result, ok, err}
use rsmc_engine.App.{Refuses, first-Refuses, fail_if-Refuses, fail_if-true-Refuses}
use rsmc_engine.Services.Access.{AuthUser, is_admin, admin_user}
use rsmc_engine.Handlers.System.{
  ends_in_slash, has_slash, has_dots, is_absolute, starts_with, raw_name, resolve_target, Tools,
  RestoreRequest, restore,
}
use rsmc_engine.Handlers.System.Paths.{
  join-bare, below-starts_with, absolute-append, has_dots-append, within, IsWithin,
}

-- What is accepted: no two dots in a row; a bare name, for the file of this name in the directory
-- of the backups; any other path that starts with a slash within this directory; and, although it
-- is not constrained then, a relative path with a slash, as it is.
abbrev pub Resolved : (dir raw path : Text) → Type 0
Resolved dir raw path =
    (has_dots raw ≡ false)
    × (has_slash raw ≡ false → path ≡ dir ++ b'/' ∷ raw)
    × (IsWithin dir path ⊎ ((has_slash raw ≡ true) × (is_absolute raw ≡ false) × (path ≡ raw)))

abbrev Accepts : (dir raw : Text) → Result Text → Type 0
Accepts dir raw (ok path) = Resolved dir raw path
Accepts dir raw (err x) = Unit

bare-Accepts :
    (dir raw : Text) (refusal : AppError)
    → is_absolute dir ≡ true
    → has_dots dir ≡ false
    → has_slash raw ≡ false
    → has_dots raw ≡ false
    → Accepts dir raw (
        if is_absolute (dir ++ b'/' ∷ raw) && not (starts_with (dir ++ b'/' ∷ raw) dir)
        then err refusal
        else ok (dir ++ b'/' ∷ raw))
bare-Accepts dir raw refusal rooted clean bare plain =
    let inside = below-starts_with dir raw rooted in
    let absolute = absolute-append dir (b'/' ∷ raw) rooted in
    rw (absolute, inside)
      (
        plain,
        (λ _. refl),
        inl (within dir (dir ++ b'/' ∷ raw) absolute (has_dots-append dir raw clean plain) inside),
      )

slashed-Accepts :
    (dir raw : Text) (refusal : AppError)
    → has_slash raw ≡ true
    → has_dots raw ≡ false
    → Accepts dir raw (if is_absolute raw && not (starts_with raw dir) then err refusal else ok raw)
slashed-Accepts dir raw refusal slash plain = elim (Bool-cases (is_absolute raw)) [
  | inr relative ↦
      rw relative
        (plain, (λ bare. absurd (ground (arith, slash, bare))), inr (slash, relative, refl))
  | inl absolute ↦ rw absolute (elim (Bool-cases (starts_with raw dir)) [
    | inl inside ↦ rw inside (
      plain,
      (λ bare. absurd (ground (arith, slash, bare))),
      inl (within dir raw absolute plain inside),
    )
    | inr outside ↦ rw outside tt
  ])
]

resolve_target-Accepts :
    (dir stamp : Text) (input : Option Text)
    → is_absolute dir ≡ true
    → ends_in_slash dir ≡ false
    → has_dots dir ≡ false
    → Accepts dir (raw_name stamp input) (resolve_target dir stamp input)
unfolding resolve_target
resolve_target-Accepts dir stamp input rooted open_end clean =
    let raw = raw_name stamp input in
    elim (Bool-cases (has_dots raw)) [
      | inl dots ↦ rw dots tt
      | inr plain ↦ rw plain (elim (Bool-cases (has_slash raw)) [
        | inl slash ↦ rw slash (slashed-Accepts dir raw _ slash plain)
        | inr bare ↦
            rw (bare, join-bare dir raw open_end bare)
              (bare-Accepts dir raw _ rooted clean bare plain)
      ])
    ]

-- Where the directory of the backups is an absolute path that does not end in a slash and has no two
-- dots in a row: an accepted target, given or made up from the time, has no two dots in a row. It
-- lies in that directory, or is the directory itself, and its components never go up, unless it is a
-- relative path with a slash, which is accepted as it is. A bare name is the one in that directory.
pub resolve_target-Resolved :
    (dir stamp : Text) (input : Option Text) (path : Text)
    → is_absolute dir ≡ true
    → ends_in_slash dir ≡ false
    → has_dots dir ≡ false
    → resolve_target dir stamp input ≡ ok path
    → Resolved dir (raw_name stamp input) path
resolve_target-Resolved dir stamp input path rooted open_end clean h =
    subst (Accepts dir (raw_name stamp input)) h
      (resolve_target-Accepts dir stamp input rooted open_end clean)

-- A path with a slash that does not start with one is accepted as it is, when it has no two dots in
-- a row, whatever the directory of the backups is.
pub resolve_target-relative :
    (dir stamp : Text) (input : Option Text)
    → has_slash (raw_name stamp input) ≡ true
    → is_absolute (raw_name stamp input) ≡ false
    → has_dots (raw_name stamp input) ≡ false
    → resolve_target dir stamp input ≡ ok (raw_name stamp input)
unfolding resolve_target
resolve_target-relative dir stamp input slash relative plain = rw (plain, slash, relative) refl

-- A restore by somebody who is not an admin, or without confirmation, is answered with an error and
-- changes nothing.
pub restore-Refuses :
    (t : Tools) (admin : AuthUser) (req : RestoreRequest)
    → (is_admin admin.role && req.confirm) ≡ false
    → Refuses (λ _. Unit {0}) (restore t admin req)
unfolding restore admin_user
restore-Refuses t admin req denied =
    fail_if-Refuses _ _ _
      λ known. first-Refuses _ (fail_if-true-Refuses _ _ (λ d p. ground (arith, denied, known)))
