-- ===== src/Scheduler/Jobs/Keys.antt =====
-- The key of a target tells its parts apart.
use server_components.Common.{
  ℕ, ◌≡◌, refl, ap, ◌∙◌, [], ◌∷◌, ◌++◌, All, Bytes, bytes, Without, append_assoc,
}
use server_components.Scheduler.Jobs.{Headers, header_lines, target_key}

-- Header names hold neither a line feed nor a colon, values no line feed.
abbrev pub IsHeader : Bytes × Bytes → Type 0
IsHeader (name, value) = Without 10 name × Without b':' name × Without 10 value

-- Two texts that agree up to a byte that neither holds before it agree before and behind it.
cut_equal :
    (c : ℕ) (s t u v : Bytes)
    → Without c s
    → Without c t
    → s ++ c ∷ u ≡ t ++ c ∷ v
    → (s ≡ t) × (u ≡ v)
cut_equal c [] [] u v h k e = (refl, cc)
cut_equal c [] (b ∷ t) u v h k e = absurd (k.0 cc)
cut_equal c (a ∷ s) [] u v h k e = absurd (h.0 cc)
cut_equal c (a ∷ s) (b ∷ t) u v h k e =
    let tail : s ++ c ∷ u ≡ t ++ c ∷ v = cc in
    let (same, rest) = cut_equal c s t u v h.1 k.1 tail in (cc, rest)

-- The same where the text may also end.
abbrev IsTail : Bytes → Type 0
IsTail [] = Unit
IsTail (c ∷ s) = c ≡ 10

tail_equal :
    (s t u v : Bytes)
    → Without 10 s
    → Without 10 t
    → IsTail u
    → IsTail v
    → s ++ u ≡ t ++ v
    → (s ≡ t) × (u ≡ v)
tail_equal [] [] u v h k i j e = (refl, e)
tail_equal [] (b ∷ t) [] v h k i j e = cc
tail_equal [] (b ∷ t) (c ∷ u) v h k i j e = absurd (k.0 cc)
tail_equal (a ∷ s) [] u [] h k i j e = cc
tail_equal (a ∷ s) [] u (c ∷ v) h k i j e = absurd (h.0 cc)
tail_equal (a ∷ s) (b ∷ t) u v h k i j e =
    let rest : s ++ u ≡ t ++ v = cc in
    let (same, tails) = tail_equal s t u v h.1 k.1 i j rest in (cc, tails)

header_lines-IsTail : (headers : Headers) → IsTail (header_lines headers)
unfolding header_lines
header_lines-IsTail [] = tt
header_lines-IsTail (header ∷ headers) = refl

header_lines_injective :
    (left right : Headers)
    → All IsHeader left
    → All IsHeader right
    → header_lines left ≡ header_lines right
    → left ≡ right
unfolding header_lines
header_lines_injective [] [] h k e = refl
header_lines_injective [] (r ∷ right) h k e = cc
header_lines_injective (l ∷ left) [] h k e = cc
header_lines_injective ((name, value) ∷ left) ((other, text) ∷ right) ((h, i, j), hs)
      ((k, l, m), ks) e =
    let line : name ++ (bytes ": " ++ (value ++ header_lines left))
        ≡ other ++ (bytes ": " ++ (text ++ header_lines right)) =
      cc in
    let (names, behind) = cut_equal b':' name other _ _ i l line in
    let values : value ++ header_lines left ≡ text ++ header_lines right = cc in
    let (same, rest) =
      tail_equal value text _ _ j m (header_lines-IsTail left) (header_lines-IsTail right) values in
    let tails = header_lines_injective left right hs ks rest in cc

-- Targets whose parts hold no line feed, and whose header names hold no colon, have the same key only when the server, the
-- account, the password and all headers in their order are the same: two tenants never share a session.
pub target_key_injective :
    (url url' email email' password password' : Bytes) (headers headers' : Headers)
    → (Without 10 url × Without 10 email × Without 10 password × All IsHeader headers)
    → (Without 10 url' × Without 10 email' × Without 10 password' × All IsHeader headers')
    → target_key url email password headers ≡ target_key url' email' password' headers'
    → (url ≡ url') × (email ≡ email') × (password ≡ password') × (headers ≡ headers')
unfolding target_key
target_key_injective url url' email email' password password' headers headers' (u, m, p, h)
      (u', m', p', h') e =
    let (urls, accounts) = cut_equal 10 url url' _ _ u u' e in
    let (emails, rest) = cut_equal 10 email email' _ _ m m' accounts in
    let (passwords, lines) =
      tail_equal password password' _ _ p p' (header_lines-IsTail headers)
        (header_lines-IsTail headers') rest in
    (urls, emails, passwords, header_lines_injective headers headers' h h' lines)

-- A line feed in a password makes a collision: what follows it reads as a header of the target with the shorter password.
pub target_key-collides :
    (url email password name value : Bytes)
    → target_key url email (password ++ (10 ∷ (name ++ (bytes ": " ++ value)))) []
      ≡ target_key url email password ((name, value) ∷ [])
unfolding target_key header_lines
target_key-collides url email password name value =
    ap (λ t. url ++ (10 ∷ (email ++ (10 ∷ t))))
      (append_assoc password (10 ∷ (name ++ (bytes ": " ++ value))) []
        ∙ ap (λ t. password ++ (10 ∷ t))
            (append_assoc name (bytes ": " ++ value) []
              ∙ ap (◌++◌ name) (append_assoc (bytes ": ") value [])))
