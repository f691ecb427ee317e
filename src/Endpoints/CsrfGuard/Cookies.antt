-- ===== src/Endpoints/CsrfGuard/Cookies.antt =====
-- `GetCookieValue` against the cookies that a `Cookie` header lists.
use server_components.Common.{
  ℕ, zero, suc, ◌≤◌, ◌<◌, ◌≡◌, refl, sym, ap, ◌∙◌, ◌≢◌, true, false, none, some, List, [], ◌∷◌,
  ◌++◌, arith, if◌then◌else◌, length, length-append, take, drop, All, All-append, Bytes, bytes_eq,
  find_byte, find_byte-none, find_byte_at, take-append, Without, trim_with, trim_with_padded,
  EndsPlain, IsTrimmed, append_assoc, append-nil, trim_front, trim_back,
}
use server_components.Endpoints.CsrfGuard.{
  is_blank, trim, before_semi, after_semi, value_of_pair, cookie_from, get_cookie_value,
}

-- A name and a value as a browser sends them: without separators, without blanks at their ends.
abbrev pub IsCookie : Bytes × Bytes → Type 0
IsCookie (key, value) =
    Without b';' key
    × Without b'=' key
    × IsTrimmed is_blank key
    × Without b';' value
    × IsTrimmed is_blank value

pair_text : Bytes × Bytes → Bytes
pair_text (key, value) = key ++ b'=' ∷ value

-- The cookies, joined by `; `.
unfoldable pub cookie_header : List (Bytes × Bytes) → Bytes
unfolding pair_text
cookie_header [] = []
cookie_header (cookie ∷ []) = pair_text cookie
cookie_header (cookie ∷ next ∷ cookies) =
    pair_text cookie ++ b';' ∷ b' ' ∷ cookie_header (next ∷ cookies)

-- The value of the first cookie of a name, or nothing.
abbrev pub first_value : List (Bytes × Bytes) → Bytes → Bytes
first_value [] name = []
first_value ((key, value) ∷ cookies) name =
    if bytes_eq key name then value else first_value cookies name

abbrev AreBlank : Bytes → Type 0
AreBlank lead = All (λ c. is_blank c ≡ true) lead

EndsPlain-append :
    (s : Bytes) (c : ℕ) (t : Bytes)
    → is_blank c ≡ false
    → EndsPlain is_blank t
    → EndsPlain is_blank (s ++ c ∷ t)
EndsPlain-append [] c [] h e = h
EndsPlain-append [] c (d ∷ t) h e = e
EndsPlain-append (a ∷ []) c t h e = EndsPlain-append [] c t h e
EndsPlain-append (a ∷ b ∷ s) c t h e = EndsPlain-append (b ∷ s) c t h e

trim_fixed : (s : Bytes) → IsTrimmed is_blank s → trim s ≡ s
unfolding trim
trim_fixed [] h = unfold trim_with trim_front trim_back in refl
trim_fixed (c ∷ s) h =
    ap (λ t. trim_with is_blank t) (sym (append-nil (c ∷ s)))
    ∙ trim_with_padded is_blank [] (c ∷ s) [] tt tt (λ e. cc) h

pair_text-IsTrimmed :
    (cookie : Bytes × Bytes) → IsCookie cookie → IsTrimmed is_blank (pair_text cookie)
unfolding pair_text
pair_text-IsTrimmed ([], value) (s, e, t, w, u) =
    unfold is_blank in (refl, EndsPlain-append [] b'=' value refl u.1)
pair_text-IsTrimmed (c ∷ key, value) (s, e, t, w, u) =
    (t.0, EndsPlain-append (c ∷ key) b'=' value (unfold is_blank in refl) u.1)

trim-pair_text :
    (lead : Bytes) (cookie : Bytes × Bytes)
    → AreBlank lead
    → IsCookie cookie
    → trim (lead ++ pair_text cookie) ≡ pair_text cookie
unfolding trim
trim-pair_text lead cookie h c =
    ap (λ t. trim_with is_blank (lead ++ t)) (sym (append-nil (pair_text cookie)))
    ∙ trim_with_padded is_blank lead (pair_text cookie) [] h tt (some_text cookie)
        (pair_text-IsTrimmed cookie c)
  where
    some_text : (k : Bytes × Bytes) → pair_text k ≢ []
    some_text ([], value) e = unfold pair_text in cc
    some_text (a ∷ key, value) e = unfold pair_text in cc

AreBlank-Without : (lead : Bytes) → AreBlank lead → Without b';' lead
AreBlank-Without [] h = tt
AreBlank-Without (c ∷ lead) (b, h) = (unfold is_blank in (ground arith), AreBlank-Without lead h)

pair_text-Without :
    (lead : Bytes) (cookie : Bytes × Bytes)
    → AreBlank lead
    → IsCookie cookie
    → Without b';' (lead ++ pair_text cookie)
unfolding pair_text
pair_text-Without lead (key, value) h (s, e, t, w, u) =
    All-append _ lead (key ++ b'=' ∷ value) (AreBlank-Without lead h)
      (All-append _ key (b'=' ∷ value) s (omega arith, w))

before_semi-last : (s : Bytes) → Without b';' s → before_semi s ≡ s
unfolding before_semi
before_semi-last s h = let missing = find_byte-none b';' s h in cc

after_semi-last : (s : Bytes) → Without b';' s → after_semi s ≡ none
unfolding after_semi
after_semi-last s h = let missing = find_byte-none b';' s h in cc

drop-next : (s t : Bytes) (c : ℕ) → drop (suc (length s)) (s ++ c ∷ t) ≡ t
drop-next [] t c = refl
drop-next (d ∷ s) t c = drop-next s t c

before_semi-at : (s : Bytes) (i : ℕ) → find_byte b';' s ≡ some i → before_semi s ≡ take i s
unfolding before_semi
before_semi-at s i e = cc

after_semi-at :
    (s : Bytes) (i : ℕ) → find_byte b';' s ≡ some i → after_semi s ≡ some (drop (suc i) s)
unfolding after_semi
after_semi-at s i e = cc

before_semi-next : (s t : Bytes) → Without b';' s → before_semi (s ++ b';' ∷ t) ≡ s
before_semi-next s t h =
    before_semi-at (s ++ b';' ∷ t) (length s) (find_byte_at b';' s t h) ∙ take-append s (b';' ∷ t)

after_semi-next : (s t : Bytes) → Without b';' s → after_semi (s ++ b';' ∷ t) ≡ some t
after_semi-next s t h =
    after_semi-at (s ++ b';' ∷ t) (length s) (find_byte_at b';' s t h)
    ∙ ap some (drop-next s t b';')

value_of_pair-at :
    (pair name next : Bytes) (i : ℕ)
    → find_byte b'=' pair ≡ some i
    → value_of_pair pair name next
      ≡ (if bytes_eq (trim (take i pair)) name then trim (drop (suc i) pair) else next)
unfolding value_of_pair
value_of_pair-at pair name next i e = cc

value_of_pair_lem :
    (cookie : Bytes × Bytes) (name next : Bytes)
    → IsCookie cookie
    → value_of_pair (pair_text cookie) name next
      ≡ (if bytes_eq cookie.0 name then cookie.1 else next)
unfolding pair_text
value_of_pair_lem (key, value) name next (s, e, t, w, u) =
    value_of_pair-at (key ++ b'=' ∷ value) name next (length key) (find_byte_at b'=' key value e)
    ∙ rw (
      take-append key (b'=' ∷ value),
      drop-next key value b'=',
      trim_fixed key t,
      trim_fixed value u,
    )

-- The loop at the last pair, and at one that a semicolon ends.
cookie_from-last :
    (fuel : ℕ) (rest name : Bytes)
    → after_semi rest ≡ none
    → cookie_from (suc fuel) rest name ≡ value_of_pair (trim (before_semi rest)) name []
unfolding cookie_from
cookie_from-last fuel rest name e = cc

cookie_from-next :
    (fuel : ℕ) (rest name more : Bytes)
    → after_semi rest ≡ some more
    → cookie_from (suc fuel) rest name
      ≡ value_of_pair (trim (before_semi rest)) name (cookie_from fuel more name)
unfolding cookie_from
cookie_from-next fuel rest name more e = cc

cookie_from_lem :
    (fuel : ℕ) (lead : Bytes) (cookie : Bytes × Bytes) (cookies : List (Bytes × Bytes))
    (name : Bytes)
    → length cookies < fuel
    → AreBlank lead
    → All IsCookie (cookie ∷ cookies)
    → cookie_from fuel (lead ++ cookie_header (cookie ∷ cookies)) name
      ≡ first_value (cookie ∷ cookies) name
unfolding cookie_header
cookie_from_lem zero lead cookie cookies name h b c = absurd (omega arith)
cookie_from_lem (suc fuel) lead cookie [] name h b (c, cs) =
    let rest = lead ++ pair_text cookie in
    let whole = pair_text-Without lead cookie b c in
    cookie_from-last fuel rest name (after_semi-last rest whole)
    ∙ rw (before_semi-last rest whole, trim-pair_text lead cookie b c)
        (value_of_pair_lem cookie name [] c)
cookie_from_lem (suc fuel) lead cookie (next ∷ cookies) name h b (c, cs) =
    let here = lead ++ pair_text cookie in
    let whole = pair_text-Without lead cookie b c in
    let more = b' ' ∷ cookie_header (next ∷ cookies) in
    ap (λ rest. cookie_from (suc fuel) rest name)
      (sym (append_assoc lead (pair_text cookie) (b';' ∷ more)))
    ∙ cookie_from-next fuel (here ++ b';' ∷ more) name more (after_semi-next here more whole)
    ∙ rw
        (
          before_semi-next here more whole,
          trim-pair_text lead cookie b c,
          cookie_from_lem fuel (b' ' ∷ []) next cookies name (omega arith)
              (unfold is_blank in refl, tt) cs,
        )
        (value_of_pair_lem cookie name (first_value (next ∷ cookies) name) c)

length-cookie_header :
    (cookie : Bytes × Bytes) (cookies : List (Bytes × Bytes))
    → length cookies ≤ length (cookie_header (cookie ∷ cookies))
unfolding cookie_header
length-cookie_header cookie [] = omega arith
length-cookie_header cookie (next ∷ cookies) = omega (
  arith,
  length-cookie_header next cookies,
  length-append (pair_text cookie) (b';' ∷ b' ' ∷ cookie_header (next ∷ cookies)),
)

-- From a header that lists cookies as browsers do, joined by `; `, the value of the first cookie of the asked name
-- is read, and nothing when no cookie has the name.
pub get_cookie_value_lem :
    (cookies : List (Bytes × Bytes)) (name : Bytes)
    → All IsCookie cookies
    → get_cookie_value (cookie_header cookies) name ≡ first_value cookies name
unfolding get_cookie_value
get_cookie_value_lem [] name h =
    unfold cookie_header cookie_from value_of_pair after_semi before_semi find_byte trim trim_with
      trim_front trim_back in
    refl
get_cookie_value_lem (cookie ∷ cookies) name h =
    cookie_from_lem (suc (length (cookie_header (cookie ∷ cookies)))) [] cookie cookies name
      (omega (arith, length-cookie_header cookie cookies)) tt h
