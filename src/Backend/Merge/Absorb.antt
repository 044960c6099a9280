-- ===== src/Backend/Merge/Absorb.antt =====
-- The merge loops take in each new entry once: for DNS servers compared as addresses, and for
-- search domains compared as texts.
use go_network_configurator.Prelude.{
  ◌≡◌, refl, sym, ◌∙◌, Bool, true, false, ◌||◌, List, [], ◌∷◌, ◌++◌, if◌then◌else◌, Bytes, bytes_eq,
  All, arith, Bool-cases, inl, inr, append_assoc, append-nil,
}
use go_network_configurator.Net.{Ip, is_nil, ip_equal, ip_is_in, string_in_slice}
use go_network_configurator.Backend.{merge_dns, merge_search_domains}

module _ {A : Type 0} (same : A → A → Bool) where
  unfoldable pub member : List A → A → Bool
  member [] x = false
  member (a ∷ xs) x = if same a x then true else member xs x

  -- No entry equals a later one.
  unfoldable pub IsDistinct : List A → Type 0
  IsDistinct [] = Unit
  IsDistinct (x ∷ xs) = (member xs x ≡ false) × IsDistinct xs

  member-append : (xs ys : List A) (x : A) → member (xs ++ ys) x ≡ member xs x || member ys x
  unfolding member
  member-append [] ys x = refl
  member-append (a ∷ xs) ys x = ground (arith, member-append xs ys x)

module _ {A : Type 0} (same : A → A → Bool) (empty : A → Bool) where
  unfoldable pub absorb : List A → List A → List A
  absorb target [] = target
  absorb target (x ∷ xs) =
      absorb (if empty x || member same target x then target else target ++ x ∷ []) xs

  -- Not empty, and one of `news`
  abbrev pub IsGenuine : List A → A → Type 0
  IsGenuine news x = (empty x ≡ false) × (member same news x ≡ true)

  -- What taking in the entries `news` makes of `target`: it stays as the front, behind it are only
  -- entries of `news` that are not empty, every entry of `news` that is not empty is there
  -- afterwards, and no entry is there twice, if none was.
  pub record Absorbs (target news result : List A) : Type 0 where
    pub extra : List A
    pub kept : result ≡ target ++ extra
    pub genuine : All (IsGenuine news) extra
    pub covered : All (λ x. empty x ≡ false → member same result x ≡ true) news
    pub distinct : IsDistinct same target → IsDistinct same result

  pub absorb-append :
      (target xs ys : List A) → absorb (absorb target xs) ys ≡ absorb target (xs ++ ys)
  unfolding absorb
  absorb-append target [] ys = refl
  absorb-append target (x ∷ xs) ys =
      absorb-append (if empty x || member same target x then target else target ++ x ∷ []) xs ys

  module _ (same-refl : (a : A) → same a a ≡ true)
      (same_sym : (a b : A) → same a b ≡ same b a) where
    IsDistinct-concat :
        (xs : List A) (x : A)
        → IsDistinct same xs
        → member same xs x ≡ false
        → IsDistinct same (xs ++ x ∷ [])
    unfolding IsDistinct member
    IsDistinct-concat [] x d h = (refl, tt)
    IsDistinct-concat (a ∷ xs) x d h = (
      ground (arith, member-append same xs (x ∷ []) a, same_sym a x),
      IsDistinct-concat xs x d.1 (ground arith),
    )

    member-kept :
        (target extra result : List A) (x : A)
        → result ≡ target ++ extra
        → member same target x ≡ true
        → member same result x ≡ true
    member-kept target extra result x e h = rw e (rw (member-append same target extra x, h))

    IsGenuine-more :
        (x : A) (news extra : List A)
        → All (IsGenuine news) extra
        → All (IsGenuine (x ∷ news)) extra
    unfolding member
    IsGenuine-more x news [] h = tt
    IsGenuine-more x news (a ∷ extra) h =
        ((h.0.0, ground (arith, h.0.1)), IsGenuine-more x news extra h.1)

    Absorbs-old :
        (target xs result : List A) (x : A)
        → empty x || member same target x ≡ true
        → Absorbs target xs result
        → Absorbs target (x ∷ xs) result
    Absorbs-old target xs result x h a = record {
      extra = a.extra;
      kept = a.kept;
      genuine = IsGenuine-more x xs a.extra a.genuine;
      covered = (λ e. member-kept target a.extra result x a.kept (ground arith), a.covered);
      distinct = a.distinct;
    }

    Absorbs-new :
        (target xs result : List A) (x : A)
        → empty x || member same target x ≡ false
        → Absorbs (target ++ x ∷ []) xs result
        → Absorbs target (x ∷ xs) result
    unfolding IsDistinct member
    Absorbs-new target xs result x h a = record {
      extra = x ∷ a.extra;
      kept = a.kept ∙ append_assoc target (x ∷ []) a.extra;
      genuine =
          ((ground arith, ground (arith, same-refl x)), IsGenuine-more x xs a.extra a.genuine);
      covered = (
        λ e.
            member-kept (target ++ x ∷ []) a.extra result x a.kept
              (ground (arith, member-append same target (x ∷ []) x, same-refl x)),
        a.covered,
      );
      distinct = λ d. a.distinct (IsDistinct-concat target x d (ground arith));
    }

    pub absorb-Absorbs : (target news : List A) → Absorbs target news (absorb target news)
    unfolding absorb
    absorb-Absorbs target [] = record {
      extra = [];
      kept = sym (append-nil target);
      genuine = tt;
      covered = tt;
      distinct = λ d. d;
    }
    absorb-Absorbs target (x ∷ xs) = elim (Bool-cases (empty x || member same target x)) [
      | inl h ↦ rw h (Absorbs-old target xs (absorb target xs) x h (absorb-Absorbs target xs))
      | inr h ↦ rw h (
          Absorbs-new target xs (absorb (target ++ x ∷ []) xs) x h
            (absorb-Absorbs (target ++ x ∷ []) xs))
    ]

ip_is_in-eq-member : (xs : List Ip) (x : Ip) → ip_is_in xs x ≡ member ip_equal xs x
unfolding ip_is_in member
ip_is_in-eq-member [] x = refl
ip_is_in-eq-member (a ∷ xs) x = ground (arith, ip_is_in-eq-member xs x)

string_in_slice-eq-member :
    (xs : List Bytes) (x : Bytes) → string_in_slice xs x ≡ member bytes_eq xs x
unfolding string_in_slice member
string_in_slice-eq-member [] x = refl
string_in_slice-eq-member (a ∷ xs) x = ground (arith, string_in_slice-eq-member xs x)

abbrev pub is_empty : Bytes → Bool
is_empty d = bytes_eq d []

pub merge_dns-eq-absorb :
    (target news : List Ip) → merge_dns target news ≡ absorb ip_equal is_nil target news
unfolding merge_dns absorb
merge_dns-eq-absorb target [] = refl
merge_dns-eq-absorb target (x ∷ xs) = rw (ip_is_in-eq-member target x) (
    merge_dns-eq-absorb (if is_nil x || member ip_equal target x then target else target ++ x ∷ [])
      xs)

pub merge_search_domains-eq-absorb :
    (target news : List Bytes)
    → merge_search_domains target news ≡ absorb bytes_eq is_empty target news
unfolding merge_search_domains absorb
merge_search_domains-eq-absorb target [] = refl
merge_search_domains-eq-absorb target (x ∷ xs) = rw (string_in_slice-eq-member target x) (
    merge_search_domains-eq-absorb
      (if is_empty x || member bytes_eq target x then target else target ++ x ∷ []) xs)
