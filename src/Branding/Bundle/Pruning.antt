-- ===== src/Branding/Bundle/Pruning.antt =====
-- `PruneUnusableBundleItems` and `ValidateThemeBundle` of theme_bundle_import.cpp.
use server_components.Common.Int.{pos, ltb_ℤ}
use server_components.Common.{
  Bool, ◌&&◌, ◌||◌, not, none, some, List, [], ◌∷◌, ◌++◌, if◌then◌else◌, length, any, keep, Bytes,
  bytes, is_empty, bytes_eq,
}
use server_components.Data.Metadata.{KeyValueTable, find_value}
use server_components.Foundation.Numbers.{string_from_int}
use server_components.Branding.SiteValues.{is_valid_font_family_list}
use server_components.Branding.Fonts.{
  font_format_from_magic_bytes, is_valid_font_source_url, is_valid_font_family_name,
  is_valid_font_spec,
}
use server_components.Branding.Bundle.{
  BundleFontPreconnect, BundleFontSource, BundleFontFace, BundleFontFamily, ThemeBundle,
  BundleProblem, quoted, judge_content, judge_token, prune_settings,
}
use server_components.Branding.Bundle.Fatal.{find_fatal_bundle_problem}

-- `std::set`: whether it has an element, insertion, which changes nothing if it has, and erasure.
unfoldable pub has : Bytes → List Bytes → Bool
has key keys = any (λ k. bytes_eq k key) keys

unfoldable pub insert : Bytes → List Bytes → List Bytes
unfolding has
insert key keys = if has key keys then keys else key ∷ keys

unfoldable pub erase : Bytes → List Bytes → List Bytes
erase key keys = keep (λ k. not (bytes_eq k key)) keys

unfoldable pub preconnect_reason : List BundleFontPreconnect → Bytes
preconnect_reason [] = []
preconnect_reason (preconnect ∷ preconnects) =
    let rest = preconnect_reason preconnects in
    if not (is_valid_font_source_url preconnect.url)
    then quoted preconnect.url (bytes " is not a usable address to warm up.")
    else rest

-- The keys that are known when the source is looked at come first.
unfoldable pub source_reason : List Bytes → BundleFontSource → Bytes
unfolding has preconnect_reason
source_reason source_keys source =
    if is_empty source.source_key
    then bytes "a font service in that theme has no short key."
    else if has source.source_key source_keys
    then bytes "two font services in that theme share this key."
    else if not (is_valid_font_source_url source.base_url)
    then bytes "the font service address must be an https:// URL."
    else if not (is_empty source.query_suffix) && not (is_valid_font_spec source.query_suffix)
    then bytes "that extra setting is not valid."
    else preconnect_reason source.preconnects

-- The keys after the source was looked at: its key is inserted, and erased again when there is a reason.
unfoldable pub keys_after : List Bytes → BundleFontSource → List Bytes
unfolding source_reason insert erase
keys_after source_keys source =
    let inserted =
      if is_empty source.source_key then source_keys else insert source.source_key source_keys in
    if is_empty (source_reason source_keys source)
    then inserted
    else erase source.source_key inserted

-- The keys at the end, the sources that are kept, and the problems.
unfoldable pub prune_sources :
    List Bytes → List BundleFontSource → List Bytes × List BundleFontSource × List BundleProblem
unfolding keys_after source_reason
prune_sources source_keys [] = (source_keys, [], [])
prune_sources source_keys (source ∷ sources) =
    let (keys, kept_sources, problems) = prune_sources (keys_after source_keys source) sources in
    if is_empty (source_reason source_keys source)
    then (keys, source ∷ kept_sources, problems)
    else (
      keys,
      kept_sources,
      (bytes "fonts", source.source_key, source_reason source_keys source) ∷ problems,
    )

unfoldable pub face_reason : KeyValueTable → BundleFontFace → Bytes
face_reason assets face =
    if ltb_ℤ face.weight (pos 1) || ltb_ℤ (pos 1000) face.weight
    then string_from_int face.weight ++ bytes " is not a usable font weight."
    else elim (find_value face.file assets) [
      | none ↦ bytes "the file " ++ quoted face.file (bytes " is not in that theme file.")
      | some contents ↦
          if is_empty (font_format_from_magic_bytes contents)
          then quoted face.file (bytes " is not a WOFF2, WOFF, TTF or OTF font.")
          else []
    ]

-- The faces that are kept, and the problems, which name the family.
unfoldable pub prune_faces :
    KeyValueTable → Bytes → List BundleFontFace → List BundleFontFace × List BundleProblem
unfolding face_reason
prune_faces assets family [] = ([], [])
prune_faces assets family (face ∷ faces) =
    let (kept_faces, problems) = prune_faces assets family faces in
    if is_empty (face_reason assets face)
    then (face ∷ kept_faces, problems)
    else (kept_faces, (bytes "fonts", family, face_reason assets face) ∷ problems)

-- The tests that depend on the kind of a family: the reason against it, the family with the faces that are kept, and the
-- problems of the faces.
unfoldable pub judge_kind :
    KeyValueTable → List Bytes → BundleFontFamily → Bytes × BundleFontFamily × List BundleProblem
unfolding has prune_faces
judge_kind assets source_keys family =
    if bytes_eq family.source_kind (bytes "cdn")
    then (
      if not (has family.source_key source_keys)
          then bytes "names a font service ("
            ++ quoted family.source_key (bytes ") that theme does not include.")
          else if not (is_valid_font_spec family.spec)
          then bytes "that font specification is not valid."
          else [],
      family,
      [],
    )
    else if bytes_eq family.source_kind (bytes "uploaded")
    then (let (kept_faces, problems) = prune_faces assets family.family family.faces in
        (
          if is_empty kept_faces
              then bytes "has no usable font files, so nothing could be shown in it."
              else [],
          record family { faces = kept_faces },
          problems,
        ))
    else if not (bytes_eq family.source_kind (bytes "system"))
    then (bytes "unknown font kind " ++ quoted family.source_kind (bytes "."), family, [])
    else ([], family, [])

unfoldable pub judge_family :
    KeyValueTable
    → List Bytes
    → List Bytes
    → BundleFontFamily
    → Bytes × BundleFontFamily × List BundleProblem
unfolding has judge_kind
judge_family assets source_keys family_names family =
    if not (is_valid_font_family_name family.family)
    then (bytes "that is not a usable font name.", family, [])
    else if has family.family family_names
    then (bytes "two fonts in that theme are both called this.", family, [])
    else if is_empty family.fallback || not (is_valid_font_family_list family.fallback)
    then (bytes "needs a backup font (for example sans-serif).", family, [])
    else judge_kind assets source_keys family

-- The names after the family was looked at.
unfoldable pub names_after : List Bytes → Bytes → BundleFontFamily → List Bytes
unfolding insert erase
names_after family_names reason family =
    let inserted =
      if is_valid_font_family_name family.family
      then insert family.family family_names
      else family_names in
    if is_empty reason then inserted else erase family.family inserted

unfoldable pub prune_families :
    KeyValueTable
    → List Bytes
    → List Bytes
    → List BundleFontFamily
    → List BundleFontFamily × List BundleProblem
unfolding judge_family names_after
prune_families assets source_keys family_names [] = ([], [])
prune_families assets source_keys family_names (family ∷ families) =
    let (reason, pruned, face_problems) = judge_family assets source_keys family_names family in
    let (kept_families, problems) =
      prune_families assets source_keys (names_after family_names reason family) families in
    if is_empty reason
    then (pruned ∷ kept_families, face_problems ++ problems)
    else (kept_families, face_problems ++ ((bytes "fonts", family.family, reason) ∷ problems))

-- The bundle that is left, the unknown keys and the problems.
unfoldable pub prune_unusable_bundle_items :
    ThemeBundle → ThemeBundle × List Bytes × List BundleProblem
unfolding prune_sources prune_families
prune_unusable_bundle_items bundle =
    let (content, unknown_content, content_problems) =
      prune_settings (bytes "content") (judge_content bundle) bundle.content in
    let (tokens, unknown_tokens, token_problems) =
      prune_settings (bytes "tokens") judge_token bundle.tokens in
    let (source_keys, sources, source_problems) = prune_sources [] bundle.sources in
    let (families, family_problems) = prune_families bundle.assets source_keys [] bundle.families in
    (
      record bundle { content = content; tokens = tokens; sources = sources; families = families },
      unknown_content ++ unknown_tokens,
      content_problems ++ (token_problems ++ (source_problems ++ family_problems)),
    )

pub data BundleStrictness : Type 0 where
  strict lenient : BundleStrictness

abbrev pub problem_message : BundleProblem → Bytes
problem_message (area, item, reason) =
    if is_empty item then reason else item ++ (bytes ": " ++ reason)

-- The refusal that names the first of the unknown keys.
unfoldable pub unknown_keys_message : Bytes → List Bytes → Bytes
unknown_keys_message key others =
    bytes "That theme file has settings this site does not have ("
    ++ (key
        ++ ((if is_empty others
              then []
              else bytes " and " ++ (string_from_int (pos (length others)) ++ bytes " more"))
            ++ bytes ")."))

-- The message, and the unknown keys.
unfoldable pub validate_theme_bundle : ThemeBundle → BundleStrictness → Bytes × List Bytes
unfolding prune_unusable_bundle_items unknown_keys_message
validate_theme_bundle bundle strictness =
    if not (is_empty (find_fatal_bundle_problem bundle))
    then (find_fatal_bundle_problem bundle, [])
    else (let (pruned, unknown_keys, problems) = prune_unusable_bundle_items bundle in
        elim problems [
          | first ∷ rest ↦ (problem_message first, unknown_keys)
          | [] ↦ elim strictness [
            | lenient ↦ ([], unknown_keys)
            | strict ↦ elim unknown_keys [
              | [] ↦ ([], [])
              | key ∷ others ↦ (unknown_keys_message key others, key ∷ others)
            ]
          ]
        ])
