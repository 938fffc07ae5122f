-- ===== src/Markdown/Escape.antt =====
-- internal/utils/markdown.go: EscapeMarkdown, escapeMdv2 and EscapeLegacyMarkdown, on texts as lists of
-- code points. EscapeMarkdownV2 finds what it protects by regular expressions and is not modelled.
use vn_bot.Base.{ℕ, Bool, false, ◌||◌, [], ◌∷◌, ◌==◌, if◌then◌else◌}
use vn_bot.Money.Text.{Text}

abbrev pub contains : ℕ → Text → Bool
contains c [] = false
contains c (x ∷ xs) = x == c || contains c xs

abbrev pub backslash : ℕ
backslash = 0x5c

-- The set of `EscapeMarkdown`.
abbrev pub markdown_reserved : ℕ → Bool
markdown_reserved c = contains c (
    backslash ∷ b'_' ∷ b'*' ∷ b'[' ∷ b']' ∷ b'(' ∷ b')' ∷ b'~' ∷ 0x60 ∷ b'>' ∷ b'-' ∷ b'#' ∷ b'+'
    ∷ b'=' ∷ b'|' ∷ b'{' ∷ b'}' ∷ b'^' ∷ [])

-- `mdv2Reserved`, and the two more that `escapeMdv2` tests.
abbrev pub mdv2_reserved : ℕ → Bool
mdv2_reserved c =
    contains c (
      backslash ∷ b'_' ∷ b'*' ∷ b'[' ∷ b']' ∷ b'(' ∷ b')' ∷ b'~' ∷ 0x60 ∷ b'+' ∷ b'-' ∷ b'=' ∷ b'|'
      ∷ b'{' ∷ b'}' ∷ b'.' ∷ b'!' ∷ [])
    || c == b'>'
    || c == b'#'

-- The cases of the switch in `EscapeLegacyMarkdown`.
abbrev pub legacy_reserved : ℕ → Bool
legacy_reserved c = c == b'_' || c == b'*' || c == 0x60 || c == b'['

-- The loop that the three share.
unfoldable pub escape : (ℕ → Bool) → Text → Text
escape reserved [] = []
escape reserved (c ∷ s) =
    let rest = escape reserved s in if reserved c then backslash ∷ c ∷ rest else c ∷ rest

abbrev pub escape_markdown : Text → Text
escape_markdown = escape markdown_reserved

abbrev pub escape_mdv2 : Text → Text
escape_mdv2 = escape mdv2_reserved

abbrev pub escape_legacy_markdown : Text → Text
escape_legacy_markdown = escape legacy_reserved
