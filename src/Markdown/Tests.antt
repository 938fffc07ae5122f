-- ===== src/Markdown/Tests.antt =====
-- A text with a backslash, an underscore and a full stop.
use vn_bot.Base.{◌≡◌, refl, false, none, some, [], ◌∷◌}
use vn_bot.Money.Text.{Text}
use vn_bot.Markdown.Escape.{backslash, escape, escape_markdown, escape_mdv2, escape_legacy_markdown}
use vn_bot.Markdown.Reading.{read, legacy_formatting, mdv2_formatting, is_ascii, escapes_read_back}

abbrev name : Text
name = b'a' ∷ backslash ∷ b'_' ∷ b'.' ∷ []

legacy_name : escape_legacy_markdown name ≡ b'a' ∷ backslash ∷ backslash ∷ b'_' ∷ b'.' ∷ []
unfolding escape
legacy_name = refl

mdv2_name :
    escape_mdv2 name ≡ b'a' ∷ backslash ∷ backslash ∷ backslash ∷ b'_' ∷ backslash ∷ b'.' ∷ []
unfolding escape
mdv2_name = refl

markdown_name : escape_markdown name ≡ b'a' ∷ backslash ∷ backslash ∷ backslash ∷ b'_' ∷ b'.' ∷ []
unfolding escape
markdown_name = refl

-- An asterisk that stands free is formatting for both readers.
bold_is_not_plain :
    (read legacy_formatting legacy_formatting false (b'*' ∷ []) ≡ none)
    × (read is_ascii mdv2_formatting false (b'*' ∷ []) ≡ none)
unfolding read
bold_is_not_plain = (refl, refl)

escapes_read_back_example :
    (read legacy_formatting legacy_formatting false (escape_legacy_markdown name) ≡ some name)
    × (read is_ascii mdv2_formatting false (escape_mdv2 name) ≡ some name)
escapes_read_back_example = escapes_read_back name
