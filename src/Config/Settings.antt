-- ===== src/Config/Settings.antt =====
-- The settings of a file, said without the parser, and the calls of `set` that the parser makes.
use mathlib.Core.Path.{fun_ext}
use text.Mathlib.TextEquality.{Char-path}
use iamzero.Prelude.{
  ◌≢◌, String, ◌≡◌, refl, sym, ap, ◌∙◌, Bool, true, false, Option, none, some, List, [], ◌∷◌, arith,
  ◌==◌, eq_iff, inl, inr, ◌⊎◌, Bool-cases, Option-cases,
}
use iamzero.Prelude.Text.{◌<>◌}
use iamzero.Prelude.Scan.{after_literal}
use iamzero.Prelude.Words.{replace_char, one-append}
use iamzero.Prelude.Occurs.{Absent, First, cut_lem, after_literal_sound, after_literal-none}
use iamzero.Prelude.Outcome.{Outcome, ok, err, plain, Exec, ◌>>◌, pure, lift, after_call}
use iamzero.Config.{
  trim_space, without_comment, starts_comment, maybe_remove_prefix, key_of, setting_of, parse_line,
  apply_setting, env_file_parser,
}

-- What a line says: nothing, a setting, or an error.
abbrev pub Reading : Type 0
Reading = Outcome (Option (String × String))

abbrev pub IsComment : String → Type 0
IsComment line = (rest : String) × (line ≡ "#" <> rest)

-- The key of a name: in small letters, with dashes, and without the prefix where it begins with it.
abbrev pub IsKey : (String → String) → String → String → String → Type 0
IsKey lower prefix name key =
    ((rest : String) × (prefix ≢ "")
      × (name ≡ (prefix <> "_") <> rest)
      × (key ≡ replace_char b'_' "-" (lower rest)))
    ⊎ (((prefix ≡ "") ⊎ ((rest : String) → name ≢ (prefix <> "_") <> rest))
        × (key ≡ replace_char b'_' "-" (lower name)))

-- A value ends where a comment begins, and has no blanks around it.
abbrev pub IsValue : String → String → Type 0
IsValue text value =
    (Absent " #" (trim_space text) × (value ≡ trim_space text))
    ⊎ ((before : String) × (comment : String) × First " #" (trim_space text) before comment
        × (value ≡ trim_space before))

-- The line without the blanks around it is empty, a comment, without `=`, or a name and a value.
abbrev pub Means : (String → String) → String → String → Reading → Type 0
Means lower prefix line r =
    (((line ≡ "") ⊎ IsComment line) × (r ≡ ok none))
    ⊎ ((line ≢ "")
        × (IsComment line → ⊥)
        × ((Absent "=" line × (r ≡ err (plain "invalid .env file")))
            ⊎ ((name text key value : String) × First "=" line name text
                × IsKey lower prefix name key
                × IsValue text value
                × (r ≡ ok (some (key, value))))))

-- The settings up to the first line that is invalid, and whether there is one.
abbrev pub put_setting : Reading → List (String × String) × Bool → List (String × String) × Bool
put_setting (ok none) r = r
put_setting (ok (some kv)) (kvs, bad) = (kv ∷ kvs, bad)
put_setting _ r = ([], true)

abbrev pub settings : List Reading → List (String × String) × Bool
settings [] = ([], false)
settings (r ∷ rs) = put_setting r (settings rs)

-- The calls of `set`, in order, and then the error if a line is invalid.
abbrev pub set_all :
    {S : Type 0}
    → (String → String → Exec S (Unit {0}))
    → List (String × String) × Bool
    → Exec S (Unit {0})
set_all set ([], true) = lift (err (plain "invalid .env file"))
set_all set ([], false) = pure tt
set_all set ((k, v) ∷ kvs, bad) = set k v >> set_all set (kvs, bad)

without_comment-IsValue : (text : String) → IsValue text (without_comment (trim_space text))
unfolding without_comment
without_comment-IsValue text = elim (cut_lem " #" (trim_space text)) [
  | inl (n, h) ↦ inl (h, rw (n, without_comment) refl)
  | inr (b, c, e, h) ↦ inr (b, c, h, rw (e, without_comment) refl)
]

key_of-IsKey :
    (lower : String → String) (prefix name : String)
    → IsKey lower prefix name (key_of lower prefix name)
unfolding key_of maybe_remove_prefix
key_of-IsKey lower prefix name = elim (Bool-cases (prefix == "")) [
  | inl p ↦ inr (inl ((eq_iff prefix "").0 p), rw p refl)
  | inr p ↦ elim (Option-cases (after_literal (prefix <> "_") name)) [
    | inl n ↦ inr (inr λ rest. after_literal-none (prefix <> "_") name rest n, rw (p, n) refl)
    | inr (rest, e) ↦ inl (
      rest,
      λ q. cc ((eq_iff prefix "").1 q),
      after_literal_sound (prefix <> "_") name rest e,
      rw (p, e) refl,
    )
  ]
]

starts_comment-IsComment : (s : String) → starts_comment s ≡ true → IsComment s
unfolding starts_comment
starts_comment-IsComment String.[] e = cc
starts_comment-IsComment (String.◌∷◌ c s) e =
    (s, ap (λ d. String.◌∷◌ d s) (Char-path c _ (ground (arith, e))) ∙ sym (one-append _ s))

IsComment-starts : (s : String) → starts_comment s ≡ false → IsComment s → ⊥
unfolding starts_comment
IsComment-starts s e (rest, q) = cc (sym e ∙ ap starts_comment (q ∙ one-append _ rest))

parse_line-Means :
    (lower : String → String) (prefix line : String)
    → Means lower prefix (trim_space line) (parse_line lower prefix line)
unfolding parse_line setting_of
parse_line-Means lower prefix line = elim (Bool-cases (trim_space line == "")) [
  | inl e ↦ inl (inl ((eq_iff (trim_space line) "").0 e), rw e refl)
  | inr e ↦ elim (Bool-cases (starts_comment (trim_space line))) [
    | inl c ↦ inl (inr (starts_comment-IsComment (trim_space line) c), rw (e, c) refl)
    | inr c ↦ inr (
      λ q. cc ((eq_iff (trim_space line) "").1 q),
      IsComment-starts (trim_space line) c,
      elim (cut_lem "=" (trim_space line)) [
        | inl (n, h) ↦ inl (h, rw (e, c, n) refl)
        | inr (name, text, f, h) ↦ inr (
          name,
          text,
          key_of lower prefix name,
          without_comment (trim_space text),
          h,
          key_of-IsKey lower prefix name,
          without_comment-IsValue text,
          rw (e, c, f) refl,
        )
      ],
    )
  ]
]

module _ {S : Type 0} (lower : String → String) (prefix : String)
    (set : String → String → Exec S (Unit {0})) where
  apply_later :
      (lines : List String) (rs : List Reading) (o : Option (String × String)) (s : S)
      → ((t : S) → env_file_parser lower prefix set lines t ≡ set_all set (settings rs) t)
      → after_call
          (apply_setting lower prefix set o s)
          (λ _. env_file_parser lower prefix set lines)
        ≡ set_all set (put_setting (ok o) (settings rs)) s
  unfolding apply_setting
  apply_later lines rs none s ih = ih s
  apply_later lines rs (some (k, v)) s ih =
      ap (λ later. after_call (set k v s) (λ _. later)) (fun_ext ih)

  -- What the lines say, one after the other.
  abbrev pub AllMean : List String → List Reading → Type 0
  AllMean [] [] = Unit
  AllMean (line ∷ lines) (r ∷ rs) = Means lower prefix (trim_space line) r × AllMean lines rs
  AllMean _ _ = ⊥

  Means-known :
      (r : Reading) (line : String)
      → Means lower prefix line r
      → ((o : Option (String × String)) × (r ≡ ok o)) ⊎ (r ≡ err (plain "invalid .env file"))
  Means-known r line (inl (_, e)) = inl (none, e)
  Means-known r line (inr (_, _, inl (_, e))) = inr e
  Means-known r line (inr (_, _, inr (n, t, k, v, _, _, _, e))) = inl (some (k, v), e)

  parser-settings :
      (lines : List String)
      → (rs : List Reading) × AllMean lines rs
        × ((s : S) → env_file_parser lower prefix set lines s ≡ set_all set (settings rs) s)
  unfolding env_file_parser apply_setting
  parser-settings [] = ([], tt, λ s. refl)
  parser-settings (line ∷ lines) =
      let (rs, means, parses) = parser-settings lines in
      let meant = parse_line-Means lower prefix line in
      (
        parse_line lower prefix line ∷ rs,
        (meant, means),
        λ s. elim (Means-known (parse_line lower prefix line) (trim_space line) meant) [
          | inr e ↦ rw e refl
          | inl (o, e) ↦ rw e (apply_later lines rs o s parses)
        ],
      )

  -- Each line of a file is, without the blanks around it, empty, a comment that begins with `#`,
  -- without `=` and so invalid, or a name up to the first `=` and a value: the key is the name
  -- without the prefix and an underscore, if it begins with them, in small letters and with dashes
  -- for underscores; the value ends before the first " #", and has no blanks around it.  The parser
  -- calls `set` for the settings of the lines before the first invalid one, in order and stopping at
  -- the first call that fails; where no call fails and a line is invalid, it fails with that error.
  pub env_file_parser-set_all :
      (lines : List String) (s : S)
      → (rs : List Reading) × AllMean lines rs
        × (env_file_parser lower prefix set lines s ≡ set_all set (settings rs) s)
  env_file_parser-set_all lines s =
      let (rs, means, parses) = parser-settings lines in (rs, means, parses s)
