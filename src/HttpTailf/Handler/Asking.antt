-- ===== src/HttpTailf/Handler/Asking.antt =====
-- cmd/fluent-http-tailf/main.go: what an HTTP client asks for.
use fluent_agent_hydra.Prelude.{
  ℕ, ◌≡◌, ◌≢◌, refl, sym, ap, ◌∙◌, ◌⊎◌, none, some, Bool, ◌||◌, ◌==◌, List, [], ◌∷◌, ◌++◌, Bytes,
  codes, bytes_eq, length, take, All, if◌then◌else◌, arith,
}
use fluent_agent_hydra.Hydra.Strconv.{parse_bool}
use fluent_agent_hydra.Fluent.Record.{FluentRecordSet}
use fluent_agent_hydra.HttpTailf.{Tailf, match_tag, trim_right, has_prefix}
use fluent_agent_hydra.HttpTailf.Clients.{matching}
use fluent_agent_hydra.HttpTailf.Handler.{Session, session_at, new_session, Request, flag}

-- A dot or a star.
abbrev pub IsWild : ℕ → Type 0
IsWild c = (c ≡ b'.') ⊎ (c ≡ b'*')

-- The last byte is neither a dot nor a star.
abbrev pub EndsPlain : Bytes → Type 0
EndsPlain [] = Unit {0}
EndsPlain (c ∷ []) = (c ≢ b'.') × (c ≢ b'*')
EndsPlain (c ∷ d ∷ t) = EndsPlain (d ∷ t)

-- The tag without its last dots and stars, all of them.
abbrev pub IsCore : Bytes → Bytes → Type 0
IsCore tag core = (tail : Bytes) × (tag ≡ core ++ tail) × All IsWild tail × EndsPlain core

-- The record sets whose tag starts with `core`.
abbrev pub asked_for : Bytes → List FluentRecordSet → List FluentRecordSet
asked_for core [] = []
asked_for core (rs ∷ sets) =
    if bytes_eq (take (length core) rs.tag) core
    then rs ∷ asked_for core sets
    else asked_for core sets

-- The texts that stand for true in the form of a request.
abbrev pub is_truth : Bytes → Bool
is_truth s =
    bytes_eq s (codes "1")
    || bytes_eq s (codes "t")
    || bytes_eq s (codes "T")
    || bytes_eq s (codes "TRUE")
    || bytes_eq s (codes "true")
    || bytes_eq s (codes "True")

wild_cut : (c : ℕ) → IsWild c → ◌≡◌ {A = Bytes} (if c == b'.' || c == b'*' then [] else c ∷ []) []
wild_cut c w = ground arith

plain_kept :
    (c : ℕ)
    → (c ≢ b'.') × (c ≢ b'*')
    → ◌≡◌ {A = Bytes} (if c == b'.' || c == b'*' then [] else c ∷ []) (c ∷ [])
plain_kept c (n, m) = ground (arith, n, m)

trim_right-wild : (tail : Bytes) → All IsWild tail → trim_right tail ≡ []
unfolding trim_right
trim_right-wild [] h = refl
trim_right-wild (c ∷ tail) (w, h) = rw (trim_right-wild tail h, trim_right) (wild_cut c w)

trim_right-core :
    (core tail : Bytes) → All IsWild tail → EndsPlain core → trim_right (core ++ tail) ≡ core
unfolding trim_right
trim_right-core [] tail h plain = trim_right-wild tail h
trim_right-core (c ∷ []) tail h plain = rw (trim_right-wild tail h, trim_right) (plain_kept c plain)
trim_right-core (c ∷ d ∷ t) tail h plain =
    rw (trim_right-core (d ∷ t) tail h plain, trim_right) refl

has_prefix-take :
    (prefix s : Bytes) → has_prefix s prefix ≡ bytes_eq (take (length prefix) s) prefix
unfolding has_prefix bytes_eq
has_prefix-take [] s = refl
has_prefix-take (p ∷ prefix) [] = refl
has_prefix-take (p ∷ prefix) (c ∷ s) = ground (arith, has_prefix-take prefix s)

pub matching-core :
    (tag core : Bytes) (sets : List FluentRecordSet)
    → IsCore tag core
    → matching tag sets ≡ asked_for core sets
unfolding match_tag
matching-core tag core [] h = refl
matching-core tag core (rs ∷ sets) h =
    let (tail, e, wild, plain) = h in
    let cut : trim_right tag ≡ core = ap trim_right e ∙ trim_right-core core tail wild plain in
    let one : match_tag tag rs.tag ≡ bytes_eq (take (length core) rs.tag) core =
      rw (match_tag, cut) (has_prefix-take core rs.tag) in
    rw (one, matching-core tag core sets h) refl

flag_lem : (r : Request) (name : Bytes) → flag r name ≡ is_truth (r.form_value name)
unfolding parse_bool
flag_lem r name = ground arith

-- What the handler takes from the request.
pub session_at-flags :
    (path : Bytes) (r : Request) (s s' : Tailf) (c : Session)
    → session_at path r s ≡ (s', some c)
    → (c.option.include_time ≡ is_truth (r.form_value (codes "time")))
      × (c.option.include_tag ≡ is_truth (r.form_value (codes "tag")))
      × (c.as_ltsv ≡ is_truth (r.form_value (codes "ltsv")))
unfolding session_at
session_at-flags [] r s s' c h = let wrong : none ≡ some c = ap (λ v. v.1) h in cc
session_at-flags (b ∷ t) r s s' c h =
    let session = new_session (b ∷ t) r s in
    let same : some session ≡ some c = ap (λ v. v.1) h in
    let is_c : session ≡ c = cc in
    (
      sym (ap (λ k. k.option.include_time) is_c) ∙ flag_lem r (codes "time"),
      sym (ap (λ k. k.option.include_tag) is_c) ∙ flag_lem r (codes "tag"),
      sym (ap (λ k. k.as_ltsv) is_c) ∙ flag_lem r (codes "ltsv"),
    )

pub session_at-tag :
    (path : Bytes) (r : Request) (s s' : Tailf) (c : Session)
    → session_at path r s ≡ (s', some c)
    → c.tag ≡ path
unfolding session_at
session_at-tag [] r s s' c h = let wrong : none ≡ some c = ap (λ v. v.1) h in cc
session_at-tag (b ∷ t) r s s' c h =
    let same : some (new_session (b ∷ t) r s) ≡ some c = ap (λ v. v.1) h in
    let is_c : new_session (b ∷ t) r s ≡ c = cc in sym (ap (λ k. k.tag) is_c)
