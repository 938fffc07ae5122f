-- ===== src/Markdown/Reading.antt =====
-- internal/utils/markdown.go: what a reader makes of a text that EscapeLegacyMarkdown or escapeMdv2 has
-- escaped. The readers' characters are written out here, apart from the sets in the code.
use vn_bot.Base.{
  ℕ, Bool, true, false, ◌&&◌, ◌≡◌, refl, sym, ap, ◌∙◌, Option, none, some, [], ◌∷◌, inl, inr, arith,
  leb, Bool-cases, ◌==◌, ==_iff, if◌then◌else◌,
}
use vn_bot.Money.Text.{Text}
use vn_bot.Markdown.Escape.{
  contains, backslash, mdv2_reserved, legacy_reserved, escape, escape_mdv2, escape_legacy_markdown,
}

abbrev prefixed : ℕ → Option Text → Option Text
prefixed c none = none
prefixed c (some s) = some (c ∷ s)

-- A reader takes a backslash and a character that may be escaped (`takes`) for that character, and any
-- other backslash for itself. A character that stands free and begins some formatting (`special`) makes
-- the text one that is not plain. The flag says that a backslash has been read.
unfoldable pub read : (ℕ → Bool) → (ℕ → Bool) → Bool → Text → Option Text
read takes special false [] = some []
read takes special true [] = some (backslash ∷ [])
read takes special true (c ∷ s) =
    let plain = read takes special false s in
    let again = read takes special true s in
    if takes c
    then prefixed c plain
    else if c == backslash
    then prefixed backslash again
    else if special c
    then none
    else prefixed backslash (prefixed c plain)
read takes special false (c ∷ s) =
    let plain = read takes special false s in
    let again = read takes special true s in
    if c == backslash then again else if special c then none else prefixed c plain

-- The characters that begin formatting in the legacy mode, which are those that may be escaped there.
abbrev pub legacy_formatting : ℕ → Bool
legacy_formatting c = contains c (b'_' ∷ b'*' ∷ 0x60 ∷ b'[' ∷ [])

-- The characters that must be escaped in MarkdownV2. There every character from 1 to 126 may be.
abbrev pub mdv2_formatting : ℕ → Bool
mdv2_formatting c = contains c (
    b'_' ∷ b'*' ∷ b'[' ∷ b']' ∷ b'(' ∷ b')' ∷ b'~' ∷ 0x60 ∷ b'>' ∷ b'#' ∷ b'+' ∷ b'-' ∷ b'=' ∷ b'|'
    ∷ b'{' ∷ b'}' ∷ b'.' ∷ b'!' ∷ [])

abbrev pub is_ascii : ℕ → Bool
is_ascii c = leb 1 c && leb c 126

module _ (takes special reserved : ℕ → Bool)
    (escaped : (c : ℕ) → reserved c ≡ true → takes c ≡ true)
    (covered : (c : ℕ) → reserved c ≡ false → special c ≡ false)
    (exact : reserved backslash ≡ false → (c : ℕ) → reserved c ≡ false → takes c ≡ false) where
  -- What the reader does with an escaped character behind a backslash, ...
  read_taken :
      (c : ℕ) (s : Text)
      → takes c ≡ true
      → read takes special true (c ∷ s) ≡ prefixed c (read takes special false s)
  unfolding read
  read_taken c s e = rw e refl

  -- ... with a backslash that is not escaped, behind one and free, ...
  read_again :
      (s : Text)
      → takes backslash ≡ false
      → read takes special true (backslash ∷ s) ≡ prefixed backslash (read takes special true s)
  unfolding read
  read_again s e = rw e refl

  read-backslash : (s : Text) → read takes special false (backslash ∷ s) ≡ read takes special true s
  unfolding read
  read-backslash s = refl

  -- ... and with any other character, free and behind a backslash.
  read_plain :
      (c : ℕ) (s : Text)
      → special c ≡ false
      → c == backslash ≡ false
      → read takes special false (c ∷ s) ≡ prefixed c (read takes special false s)
  unfolding read
  read_plain c s e b = rw (b, e) refl

  read_behind :
      (c : ℕ) (s : Text)
      → takes c ≡ false
      → special c ≡ false
      → c == backslash ≡ false
      → read takes special true (c ∷ s)
        ≡ prefixed backslash (prefixed c (read takes special false s))
  unfolding read
  read_behind c s t e b = rw (t, b, e) refl

  -- Both states of the reader, at an escaped text.
  read-escape :
      (s : Text)
      → (read takes special false (escape reserved s) ≡ some s)
        × (reserved backslash ≡ false
            → read takes special true (escape reserved s) ≡ some (backslash ∷ s))
  unfolding escape
  read-escape [] = (nothing, λ r. lone)
    where
      nothing : read takes special false [] ≡ some []
      nothing = unfold read in refl

      lone : read takes special true [] ≡ some (backslash ∷ [])
      lone = unfold read in refl
  read-escape (c ∷ s) =
      let (plain, behind) = read-escape s in
      elim (Bool-cases (reserved c)) [
        | inl e ↦
            let taken = read_taken c (escape reserved s) (escaped c e) ∙ ap (prefixed c) plain in
            (
              rw (e, read-backslash (c ∷ escape reserved s)) taken,
              λ r. rw (e, read_again (c ∷ escape reserved s) (exact r backslash r), taken) refl,
            )
        | inr e ↦ elim (Bool-cases (c == backslash)) [
          | inl b ↦
              let q = (==_iff c backslash).0 b in
              let free : reserved backslash ≡ false = ap reserved (sym q) ∙ e in
              (
                rw (e, q, read-backslash (escape reserved s)) (behind free),
                λ r. rw (e, q, read_again (escape reserved s) (exact r backslash r), behind r) refl,
              )
          | inr b ↦ (
            rw (e, read_plain c (escape reserved s) (covered c e) b, plain) refl,
            λ r.
                rw (e, read_behind c (escape reserved s) (exact r c e) (covered c e) b, plain) refl,
          )
        ]
      ]

legacy-same : (c : ℕ) → legacy_formatting c ≡ legacy_reserved c
legacy-same c = ground arith

mdv2-covered : (c : ℕ) → mdv2_reserved c ≡ false → mdv2_formatting c ≡ false
mdv2-covered c h = ground (arith, h)

mdv2-is_ascii : (c : ℕ) → mdv2_reserved c ≡ true → is_ascii c ≡ true
mdv2-is_ascii c h = ground (arith, h)

-- A reader for which `_`, `*`, `[` and the backquote begin formatting, and only these may be escaped,
-- takes the text from EscapeLegacyMarkdown for the text that was escaped; a reader for which the 18
-- characters that MarkdownV2 reserves begin formatting, and all of ASCII may be escaped, takes the text
-- from escapeMdv2 for the text that was escaped. Neither finds any formatting.
pub escapes_read_back :
    (s : Text)
    → (read legacy_formatting legacy_formatting false (escape_legacy_markdown s) ≡ some s)
      × (read is_ascii mdv2_formatting false (escape_mdv2 s) ≡ some s)
escapes_read_back s = (
  (read-escape legacy_formatting legacy_formatting legacy_reserved (λ c h. legacy-same c ∙ h)
      (λ c h. legacy-same c ∙ h) (λ r c h. legacy-same c ∙ h) s).0,
  (read-escape is_ascii mdv2_formatting mdv2_reserved mdv2-is_ascii mdv2-covered
      (λ r c h. absurd (ground (arith, r))) s).0,
)
