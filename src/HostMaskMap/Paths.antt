-- ===== src/HostMaskMap/Paths.antt =====
-- The way of a mask through the trie of src/host_mask.rs: the keys under which it is stored.
use titanirc.Base.{
  ◌<◌, ◌≡◌, refl, ◌↔◌, Bool, true, false, ◌&&◌, List, [], ◌∷◌, ◌++◌, arith, if◌then◌else◌, nat_beq,
  nat_beq_iff, Text, PartialEq,
}
use titanirc.HostMask.{HostMask}
use titanirc.HostMaskMap.{
  Key, wildcard, end_of_string, char, key_beq, Matcher, nick, username, host, take_next, stored_key,
  is_leaf, child_matcher, weight,
}

pub key_beq_iff : (a b : Key) → (key_beq a b ≡ true) ↔ (a ≡ b)
key_beq_iff wildcard wildcard = (λ _. refl, λ _. refl)
key_beq_iff end_of_string end_of_string = (λ _. refl, λ _. refl)
key_beq_iff (char c) (char d) = ground (arith, nat_beq_iff c d)
key_beq_iff wildcard end_of_string = (λ h. cc, λ h. cc)
key_beq_iff wildcard (char d) = (λ h. cc, λ h. cc)
key_beq_iff end_of_string wildcard = (λ h. cc, λ h. cc)
key_beq_iff end_of_string (char d) = (λ h. cc, λ h. cc)
key_beq_iff (char c) wildcard = (λ h. cc, λ h. cc)
key_beq_iff (char c) end_of_string = (λ h. cc, λ h. cc)

instance abbrev pub key_eq : PartialEq Key
key_eq = record { beq = key_beq; agrees = key_beq_iff }

abbrev pub path_beq : List Key → List Key → Bool
path_beq [] [] = true
path_beq [] (k ∷ q) = false
path_beq (j ∷ p) [] = false
path_beq (j ∷ p) (k ∷ q) = key_beq j k && path_beq p q

pub path_beq_iff : (p q : List Key) → (path_beq p q ≡ true) ↔ (p ≡ q)
path_beq_iff [] [] = (λ _. refl, λ _. refl)
path_beq_iff [] (k ∷ q) = (λ h. cc, λ h. cc)
path_beq_iff (j ∷ p) [] = (λ h. cc, λ h. cc)
path_beq_iff (j ∷ p) (k ∷ q) = ground (arith, key_beq_iff j k, path_beq_iff p q)

-- What stands behind a `*` in a section is not stored.
abbrev pub section_keys : Text → List Key
section_keys [] = end_of_string ∷ []
section_keys (c ∷ s) = if nat_beq c b'*' then wildcard ∷ [] else char c ∷ section_keys s

-- The path of a mask from a map with the given matcher.
abbrev pub path : Matcher → HostMask → List Key
path nick mask = section_keys mask.nick ++ (section_keys mask.username ++ section_keys mask.host)
path username mask = section_keys mask.username ++ section_keys mask.host
path host mask = section_keys mask.host

abbrev pub step_key : Matcher → HostMask → Key
step_key m mask = stored_key (take_next m mask).0

abbrev pub path_rest : Matcher → Key → HostMask → List Key
path_rest m k mask = if is_leaf m k then [] else path (child_matcher m k) mask

-- One step of the way: the next key, and the path of the mask that `take_next_char` leaves.
path_step_of :
    (m : Matcher) (n u h : Text)
    → let mask : HostMask = record { nick = n; username = u; host = h } in
      path m mask ≡ step_key m mask ∷ path_rest m (step_key m mask) (take_next m mask).1
path_step_of nick [] u h = refl
path_step_of nick (c ∷ n) u h = ground arith
path_step_of username n [] h = refl
path_step_of username n (c ∷ u) h = ground arith
path_step_of host n u [] = refl
path_step_of host n u (c ∷ h) = ground arith

pub path_step :
    (m : Matcher) (mask : HostMask)
    → path m mask ≡ step_key m mask ∷ path_rest m (step_key m mask) (take_next m mask).1
path_step m mask = path_step_of m mask.nick mask.username mask.host

weight_step_of :
    (m : Matcher) (n u h : Text)
    → let mask : HostMask = record { nick = n; username = u; host = h } in
      is_leaf m (step_key m mask) ≡ false
      → weight (child_matcher m (step_key m mask)) (take_next m mask).1 < weight m mask
weight_step_of nick [] u h e = ground arith
weight_step_of nick (c ∷ n) u h e = ground arith
weight_step_of username n [] h e = ground arith
weight_step_of username n (c ∷ u) h e = ground arith
weight_step_of host n u [] e = ground arith
weight_step_of host n u (c ∷ h) e = ground arith

-- The fuel falls at each level of the trie.
pub weight_step :
    (m : Matcher) (mask : HostMask)
    → is_leaf m (step_key m mask) ≡ false
    → weight (child_matcher m (step_key m mask)) (take_next m mask).1 < weight m mask
weight_step m mask = weight_step_of m mask.nick mask.username mask.host

-- Every map has a level to go.
pub weight-pos : (m : Matcher) (mask : HostMask) → 0 < weight m mask
weight-pos nick mask = ground arith
weight-pos username mask = ground arith
weight-pos host mask = ground arith
