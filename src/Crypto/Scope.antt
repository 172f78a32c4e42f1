-- ===== src/Crypto/Scope.antt =====
-- packages/crypto/src/scope.ts: what a key speaks for, and when one scope lies within another.
pub mod Labels
use tnp.Prelude.{
  ℕ, ◌-◌, Bool, ◌&&◌, ◌||◌, leb, ltb, if◌then◌else◌, false, not, List, ◌∷◌, length, all, drop,
}
use tnp.Prelude.Texts.{same_text}
use tnp.Protocol.Overlay.Name.{is_label, split}

abbrev pub max_name_length : ℕ
max_name_length = 253

-- `isValidScope`, of a string: the labels' syntax is that of a routing name.
unfoldable pub is_valid_scope : List ℕ → Bool
is_valid_scope s = ltb 0 (length s) && (leb (length s) max_name_length && all is_label (split s))

-- `s.endsWith(suffix)`
unfoldable pub ends_with : (s suffix : List ℕ) → Bool
ends_with s suffix =
    leb (length suffix) (length s) && same_text (drop (length s - length suffix) s) suffix

unfoldable pub scope_covers : (outer inner : List ℕ) → Bool
scope_covers outer inner =
    if not (is_valid_scope outer) || not (is_valid_scope inner)
    then false
    else same_text inner outer || ends_with inner (0x2e ∷ outer)
