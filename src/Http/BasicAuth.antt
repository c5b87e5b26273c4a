-- ===== src/Http/BasicAuth.antt =====
-- src/common/auth/basic-auth.ts: the password of the Bull Board pages.
use Prim.Native.Char.{Char, code}
use Prim.Native.String.{[], ◌∷◌}
use text.Mathlib.TextEquality.{Char-path}
use text.Mathlib.TextLemmas.{nil-append, cons-append}
use nest_fastify_boilerplate.Prelude.{
  String, ◌≡◌, ◌≢◌, ◌↔◌, sym, ap, ap₂, subst, ◌∙◌, Bool, true, false, Option, none, some, eqb, ◌==◌,
  ◌&&◌, ◌<>◌, if◌then◌else◌, is_some, arith, eq_iff, eq_refl, Bool-cases, Option-cases, inl, inr,
}

-- `s.startsWith(p)`, with `s.slice(p.length)`.
unfoldable pub strip_prefix : String → String → Option String
strip_prefix [] s = some s
strip_prefix (c ∷ p) [] = none
strip_prefix (c ∷ p) (d ∷ s) = if eqb (code c) (code d) then strip_prefix p s else none

abbrev prepend : Char → Option (String × String) → Option (String × String)
prepend c none = none
prepend c (some (a, b)) = some (c ∷ a, b)

-- The text before and behind the first ':', if there is one: `indexOf(':')` and the two slices.
unfoldable pub split_colon : String → Option (String × String)
split_colon [] = none
split_colon (c ∷ s) =
    let rest = split_colon s in if eqb (code c) b':' then some ([], s) else prepend c rest

-- What the hook does with a request: `done()`, or an answer 401 with `WWW-Authenticate`.
pub data HookReply : Type 0 where
  done unauthorized : HookReply

abbrev basic : Option String → Option String
basic none = none
basic (some header) = strip_prefix "Basic " header

-- `decode` is `Buffer.from(…, 'base64').toString('utf8')`.
module _ (decode : String → String) where
  abbrev matches : String → String → Option (String × String) → Bool
  matches user pass none = false
  matches user pass (some (u, p)) = (u == user) && (p == pass)

  abbrev check_credentials : String → String → Option String → Bool
  check_credentials user pass none = false
  check_credentials user pass (some encoded) = matches user pass (split_colon (decode encoded))

  unfoldable pub verify_basic_auth : Option String → String → String → Bool
  unfolding strip_prefix split_colon
  verify_basic_auth header expected_user expected_pass =
      check_credentials expected_user expected_pass (basic header)

  -- `createBullBoardAuthHook`
  unfoldable pub bull_board_auth_hook :
      String → String → String → String → Option String → HookReply
  unfolding verify_basic_auth strip_prefix
  bull_board_auth_hook route_prefix user pass url authorization =
      if is_some (strip_prefix route_prefix url)
      then (if verify_basic_auth authorization user pass then done else unauthorized)
      else done

abbrev pub NoColon : String → Type 0
NoColon [] = Unit
NoColon (c ∷ s) = (code c ≢ b':') × NoColon s

strip_prefix-append : (p s : String) → strip_prefix p (p <> s) ≡ some s
unfolding strip_prefix
strip_prefix-append [] s = rw (nil-append s)
strip_prefix-append (c ∷ p) s = rw (cons-append c p s) (ground (arith, strip_prefix-append p s))

strip_prefix_sound : (p s r : String) → strip_prefix p s ≡ some r → s ≡ p <> r
unfolding strip_prefix
strip_prefix_sound [] s r h = let same : s ≡ r = ground arith in same ∙ sym (nil-append r)
strip_prefix_sound (c ∷ p) [] r h = cc
strip_prefix_sound (c ∷ p) (d ∷ s) r h = elim (Bool-cases (eqb (code c) (code d))) [
  | inl same ↦
      ap₂ (λ (a : Char) (t : String). a ∷ t) (Char-path d c (ground arith))
        (strip_prefix_sound p s r (ground arith))
      ∙ sym (cons-append c p r)
  | inr other ↦ absurd (ground arith)
]

abbrev colon : Char
colon = ":"

-- The text from the colon on.
from_colon : (p : String) → ":" <> p ≡ colon ∷ p
from_colon p = cons-append colon [] p ∙ ap (λ (t : String). colon ∷ t) (nil-append p)

split_colon-append : (u p : String) → NoColon u → split_colon (u <> ":" <> p) ≡ some (u, p)
unfolding split_colon
split_colon-append [] p h = ap split_colon (nil-append (":" <> p) ∙ from_colon p)
split_colon-append (c ∷ u) p (ne, h) =
    ap split_colon (cons-append c u (":" <> p)) ∙ ground (arith, split_colon-append u p h)

split_colon_sound : (s u p : String) → split_colon s ≡ some (u, p) → (s ≡ u <> ":" <> p) × NoColon u
unfolding split_colon
split_colon_sound [] u p h = absurd (ground arith)
split_colon_sound (c ∷ s) u p h = elim (Bool-cases (eqb (code c) b':')) [
  | inl same ↦
      let nothing : u ≡ [] = ground arith in
      let rest : s ≡ p = ground arith in
      rw nothing (
        ap₂ (λ (a : Char) (t : String). a ∷ t) (Char-path c colon (ground arith)) rest
            ∙ sym (nil-append (":" <> p) ∙ from_colon p),
        tt,
      )
  | inr other ↦ elim (Option-cases (split_colon s)) [
    | inl missing ↦ absurd (ground arith)
    | inr ((a, b), found) ↦
        let (same, plain) = split_colon_sound s a b found in
        let front : u ≡ c ∷ a = ground arith in
        let back : b ≡ p = ground arith in
        rw front (
          ap (λ (t : String). c ∷ t) (same ∙ ap (λ (t : String). a <> ":" <> t) back)
              ∙ sym (cons-append c a (":" <> p)),
          (ground arith, plain),
        )
  ]
]

-- The header that a client sends for its encoded credentials.
abbrev pub basic_header : String → Option String
basic_header encoded = some ("Basic " <> encoded)

module _ (decode : String → String) (user pass : String) where
  verify_basic_auth_complete :
      (encoded : String)
      → NoColon user
      → decode encoded ≡ user <> ":" <> pass
      → verify_basic_auth decode (basic_header encoded) user pass ≡ true
  unfolding verify_basic_auth
  verify_basic_auth_complete encoded plain decoded = ground (
    arith,
    strip_prefix-append "Basic " encoded,
    ap split_colon decoded ∙ split_colon-append user pass plain,
    eq_refl user,
    eq_refl pass,
  )

  verify_basic_auth_sound :
      (header : Option String)
      → verify_basic_auth decode header user pass ≡ true
      → ((encoded : String) × (header ≡ basic_header encoded)
          × (decode encoded ≡ user <> ":" <> pass))
        × NoColon user
  unfolding verify_basic_auth
  verify_basic_auth_sound none h = cc
  verify_basic_auth_sound (some header) h = elim (Option-cases (strip_prefix "Basic " header)) [
    | inl missing ↦ absurd (ground arith)
    | inr (encoded, stripped) ↦ elim (Option-cases (split_colon (decode encoded))) [
      | inl whole ↦ absurd (ground arith)
      | inr ((u, p), parts) ↦
          let same_user : u ≡ user = ground (arith, eq_iff u user) in
          let same_pass : p ≡ pass = ground (arith, eq_iff p pass) in
          let (text, plain) = split_colon_sound (decode encoded) u p parts in
          (
            (
              encoded,
              ap some (strip_prefix_sound "Basic " header encoded stripped),
              text ∙ ap₂ (λ a b. a <> ":" <> b) same_user same_pass,
            ),
            subst NoColon same_user plain,
          )
    ]
  ]

-- The check passes exactly for a header that is `Basic ` and a text that decodes to the user name, a
-- colon and the password, if the user name has no colon; if it has one, no header passes.
pub verify_basic_auth_lem :
    (decode : String → String) (header : Option String) (user pass : String)
    → (verify_basic_auth decode header user pass ≡ true) ↔ (
        ((encoded : String) × (header ≡ basic_header encoded)
          × (decode encoded ≡ user <> ":" <> pass))
        × NoColon user)
verify_basic_auth_lem decode header user pass = (
  verify_basic_auth_sound decode user pass header,
  λ ((encoded, sent, decoded), plain).
      subst (λ h. verify_basic_auth decode h user pass ≡ true) (sym sent)
        (verify_basic_auth_complete decode user pass encoded plain decoded),
)

-- The hook answers 401 exactly to a request whose URL begins with the route and whose header does not
-- pass, and lets all others on.
pub bull_board_auth_hook_lem :
    (decode : String → String) (route_prefix user pass url : String) (header : Option String)
    → (bull_board_auth_hook decode route_prefix user pass url header ≡ unauthorized) ↔ (
        ((rest : String) × (url ≡ route_prefix <> rest))
        × (verify_basic_auth decode header user pass ≡ false))
unfolding bull_board_auth_hook
bull_board_auth_hook_lem decode route_prefix user pass url header = (
  λ h. elim (Option-cases (strip_prefix route_prefix url)) [
    | inl other ↦ absurd (ground arith)
    | inr (rest, found) ↦ ((rest, strip_prefix_sound route_prefix url rest found), ground arith)
  ],
  λ ((rest, same), refused).
      ground (arith, ap (strip_prefix route_prefix) same, strip_prefix-append route_prefix rest),
)
