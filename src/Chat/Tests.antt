-- ===== src/Chat/Tests.antt =====
-- Concrete names and texts.
use bnet_command_center.Base.{take, ◌≡◌, refl, [], ◌∷◌}
use bnet_command_center.Chat.{
  is_printable, sanitize_chat_text, collapse, pop_spaces, normalize_channel_name,
}
use bnet_command_center.Text.{codes, to_lower}

normalized : normalize_channel_name (codes "  Op   Fish ") ≡ codes "op fish"
unfolding normalize_channel_name collapse is_printable pop_spaces take to_lower
normalized = refl

-- A name is cut after its end is trimmed, so that it may end in a space, and a second normalisation
-- changes it.
cut_at_space :
    (normalize_channel_name (codes "123456789 123456789 1234567890 x")
      ≡ codes "123456789 123456789 1234567890 ")
    × (normalize_channel_name (codes "123456789 123456789 1234567890 ")
        ≡ codes "123456789 123456789 1234567890")
unfolding normalize_channel_name collapse is_printable pop_spaces take to_lower
cut_at_space = (refl, refl)

sanitized : sanitize_chat_text (9 ∷ 65 ∷ 127 ∷ 200 ∷ []) ≡ 65 ∷ 200 ∷ []
unfolding sanitize_chat_text is_printable take
sanitized = refl
