-- ===== src/Config/Lists/Items.antt =====
-- What a comma-separated list reads as.
use wireproxy_homerun.Config.Keys.{parse_string, unset_variable}
use wireproxy_homerun.Config.Keys.Values.{parse_string_plain, parse_string_variable}
use wireproxy_homerun.Config.Source.{Key, Section, Platform}
use wireproxy_homerun.Config.Lists.{parse_items, parse_net_ip, items_of, is_empty_error}
use wireproxy_homerun.Prelude.{
  Each, ◌≡◌, refl, ap, ◌∙◌, false, List, [], ◌∷◌, ◌++◌, none, some, true,
}
use wireproxy_homerun.Std.{
  Result, ok, ◌>>=◌, Text, is_empty, has_byte, split_byte, codes, has_prefix, split_byte-cons,
  split_byte-whole, new_error, contains-append, contains-under,
}
use wireproxy_homerun.Std.Unicode.{Unicode, trim_space, to_lower}

-- The items, with commas between them.
unfoldable pub commas : List Text → Text
commas [] = []
commas (t ∷ []) = t
commas (t ∷ u ∷ ts) = t ++ b',' ∷ commas (u ∷ ts)

-- An item without commas, blanks around it, or bytes above 127; and not empty.
pub record IsItem (u : Unicode) (t : Text) : Type 0 where
  pub no_comma : has_byte b',' t ≡ false
  pub trimmed : trim_space u t ≡ t
  pub nonempty : is_empty t ≡ false

module _ (u : Unicode) where
  split-commas :
      (t : Text) (ts : List Text)
      → Each (IsItem u) (t ∷ ts)
      → split_byte b',' (commas (t ∷ ts)) ≡ t ∷ ts
  unfolding commas
  split-commas t [] (h, _) = split_byte-whole b',' t h.no_comma
  split-commas t (s ∷ ts) (h, r) =
      split_byte-cons b',' t (commas (s ∷ ts)) h.no_comma ∙ ap (◌∷◌ t) (split-commas s ts r)

  -- Each item on its own, in order, up to the first error.
  pub map_items {ℓ} : {A : Type ℓ} → (Text → Result A) → List Text → Result (List A)
  map_items parse [] = ok []
  map_items parse (t ∷ ts) = do x ← parse t; xs ← map_items parse ts; ok (x ∷ xs)

  parse_items-map {ℓ} :
      {A : Type ℓ} (parse : Text → Result A) (ts : List Text)
      → Each (IsItem u) ts
      → parse_items u parse ts ≡ map_items parse ts
  unfolding parse_items map_items
  parse_items-map parse [] h = refl
  parse_items-map parse (t ∷ ts) (h, r) = rw (h.trimmed, h.nonempty, parse_items-map parse ts r)

-- The text of the error holds the variable's name.
names_it :
    (p : Platform) (name q r : Text)
    → is_empty_error
        (unset_variable p name (codes "$" ++ (q ++ (codes "should not be empty" ++ r))))
      ≡ true
unfolding is_empty_error unset_variable new_error
names_it p name q r = contains-under name _ _ (
    contains-under (codes " references unset environment variable ") _ _
      (contains-under (codes "$") _ _ (contains-append q (codes "should not be empty") r)))

module _ (p : Platform) (section : Section) (name : Text) (key : Key)
    (found : section.key (to_lower p.unicode name) ≡ some key) where
  items_lem {ℓ} :
      {A : Type ℓ} (parse : Text → Result A) (t : Text) (ts : List Text)
      → key.string ≡ commas (t ∷ ts)
      → has_prefix (commas (t ∷ ts)) (codes "$") ≡ false
      → Each (IsItem p.unicode) (t ∷ ts)
      → items_of p.unicode parse (parse_string p section name) ≡ map_items p.unicode parse (t ∷ ts)
  unfolding items_of
  items_lem parse t ts e d h =
      rw (parse_string_plain p section name key (commas (t ∷ ts)) found e d, items_of)
        (rw (split-commas p.unicode t ts h) (parse_items-map p.unicode parse (t ∷ ts) h))

  -- A list of addresses, with commas between them, reads as its items, each parsed on its own and
  -- in their order; the first item that is no address makes the list an error.
  parse_net_ip-commas :
      (t : Text) (ts : List Text)
      → key.string ≡ commas (t ∷ ts)
      → has_prefix (commas (t ∷ ts)) (codes "$") ≡ false
      → Each (IsItem p.unicode) (t ∷ ts)
      → parse_net_ip p section name ≡ map_items p.unicode p.parse_addr (t ∷ ts)
  unfolding parse_net_ip
  parse_net_ip-commas = items_lem p.parse_addr

  -- A list whose variable is not set is an empty list, and no error, whenever the variable's name
  -- contains the words "should not be empty".
  pub parse_net_ip_hides_unset :
      (q r : Text)
      → key.string ≡ codes "$" ++ (q ++ (codes "should not be empty" ++ r))
      → has_prefix (q ++ (codes "should not be empty" ++ r)) (codes "$") ≡ false
      → p.lookup_env (q ++ (codes "should not be empty" ++ r)) ≡ none
      → parse_net_ip p section name ≡ ok []
  unfolding parse_net_ip items_of
  parse_net_ip_hides_unset q r e d l =
      rw
        (
          parse_string_variable p section name key found (q ++ (codes "should not be empty" ++ r)) e
              d,
          l,
        )
        (rw (names_it p name q r))
