-- ===== src/Networkd/Keys.antt =====
-- The keys of a section after several values are written.
use go_network_configurator.Prelude.{
  ◌≡◌, refl, ◌∙◌, ap, false, List, [], ◌∷◌, ◌++◌, Option, none, some, if◌then◌else◌, Bytes,
  bytes_eq, bytes_eq_refl, Bool-cases, inl, inr, append_assoc, append-nil,
}
use go_network_configurator.Net.{Ip, is_nil}
use go_network_configurator.NetTexts.{Texts}
use go_network_configurator.Networkd.{Key, Ini, gateway}
use go_network_configurator.Networkd.Report.{Keys}
use go_network_configurator.Networkd.Config.{
  non_empty, with_value, added, Changes, Changes-trans, IsIni,
}
use go_network_configurator.Networkd.Update.{put_keys, put_gateway}

-- A key after some more values are written to it
unfoldable pub with_values : List Bytes → Option Key → Option Key
with_values [] o = o
with_values (v ∷ vs) o = with_values vs (some (with_value v o))

unfoldable pub put_all : Bytes → List Bytes → Keys → Keys
put_all k [] keys = keys
put_all k (v ∷ vs) keys = put_all k vs (added k v keys)

pub put_all-same :
    (k : Bytes) (vs : List Bytes) (keys : Keys) → put_all k vs keys k ≡ with_values vs (keys k)
unfolding put_all with_values
put_all-same k [] keys = refl
put_all-same k (v ∷ vs) keys =
    put_all-same k vs (added k v keys) ∙ ap (with_values vs) (rw (bytes_eq_refl k) refl)

pub put_all-other :
    (j k : Bytes) (vs : List Bytes) (keys : Keys)
    → bytes_eq j k ≡ false
    → put_all k vs keys j ≡ keys j
unfolding put_all
put_all-other j k [] keys e = refl
put_all-other j k (v ∷ vs) keys e = put_all-other j k vs (added k v keys) e ∙ rw e refl

-- The texts that are not empty
unfoldable pub texts_in : List Bytes → List Bytes
texts_in [] = []
texts_in (v ∷ vs) = non_empty v ++ texts_in vs

pub with_values-some :
    (vs : List Bytes) (key : Key)
    → with_values vs (some key)
      ≡ some (record { value = key.value; values = key.values ++ texts_in vs })
unfolding with_values texts_in
with_values-some [] key = rw (append-nil key.values) refl
with_values-some (v ∷ vs) key =
    with_values-some vs (with_value v (some key))
    ∙ rw (append_assoc key.values (non_empty v) (texts_in vs)) refl

-- A key that was not there
pub with_values-none :
    (v : Bytes) (vs : List Bytes)
    → with_values (v ∷ vs) none ≡ some (record { value = v; values = texts_in (v ∷ vs) })
unfolding with_values texts_in
with_values-none v vs = with_values-some vs (with_value v none)

-- The texts of a gateway that is there
abbrev pub gateway_strings : Texts → Ip → List Bytes
gateway_strings texts gw = if is_nil gw then [] else texts.ip_string gw ∷ []

module _ {F S : Type 0} {ini : Ini F S} (laws : IsIni ini) (sec : S) (before after : List S) where
  unchanged :
      (f : F)
      → ini.sections f ≡ before ++ sec ∷ after
      → Changes ini (λ keys. keys) sec before after f f
  unchanged f place = record {
    in_place = place;
    keys_changed = refl;
    before_kept = refl;
    after_kept = refl;
  }

  pub put_keys-Changes :
      (k : Bytes) (vs : List Bytes) (f : F)
      → bytes_eq k [] ≡ false
      → ini.sections f ≡ before ++ sec ∷ after
      → Changes ini (put_all k vs) sec before after f (put_keys ini sec k vs f)
  unfolding put_keys put_all
  put_keys-Changes k [] f e place = unchanged f place
  put_keys-Changes k (v ∷ vs) f e place =
      let c = laws.new_key_lem sec k v f before after e place in
      Changes-trans c (put_keys-Changes k vs (ini.new_key sec k v f).1 e c.in_place)

  pub put_gateway-Changes :
      (texts : Texts) (gw : Ip) (f : F)
      → ini.sections f ≡ before ++ sec ∷ after
      → Changes ini
          (put_all gateway (gateway_strings texts gw))
          sec
          before
          after
          f
          (put_gateway ini texts sec gw f)
  unfolding put_all bytes_eq
  put_gateway-Changes texts gw f place = elim (Bool-cases (is_nil gw)) [
    | inl e ↦ rw e (unchanged f place)
    | inr e ↦ rw e (laws.new_key_lem sec gateway (texts.ip_string gw) f before after refl place)
  ]
