-- ===== src/Spaces.antt =====
-- White space around a text.
use go_network_configurator.Prelude.{Bool, true, ◌&&◌, [], ◌∷◌, if◌then◌else◌, Bytes}
use go_network_configurator.InitState.{is_space}

-- `strings.TrimSpace`, from the left, and from both ends
unfoldable pub trim_left : Bytes → Bytes
trim_left [] = []
trim_left (c ∷ s) = let rest = trim_left s in if is_space c then rest else c ∷ s

abbrev pub is_blank : Bytes → Bool
is_blank [] = true
is_blank (c ∷ s) = is_space c && is_blank s

unfoldable pub trim_right : Bytes → Bytes
trim_right [] = []
trim_right (c ∷ s) = if is_blank (c ∷ s) then [] else c ∷ trim_right s

unfoldable pub trim_space : Bytes → Bytes
unfolding trim_left trim_right
trim_space s = trim_right (trim_left s)
