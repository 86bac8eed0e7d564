-- ===== src/Text.antt =====
-- The text operations of Go's library that the handlers call, as an interface. `trim_space` and
-- `to_lower` work on Unicode text; `matches` is regexp.MatchString for a pattern of the source.
-- `len` counts bytes and `rune_count` is utf8.RuneCountInString.
use netriun_nexus.Prelude.{ℕ, String, Bool}

pub record TextOps : Type 0 where
  pub trim_space : String → String
  pub to_lower : String → String
  pub matches : (pattern text : String) → Bool
  pub len : String → ℕ
  pub rune_count : String → ℕ
