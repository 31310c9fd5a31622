-- ===== src/HostMaskMap.antt =====
-- `struct HostMaskMap` of src/host_mask.rs: a prefix trie over the three sections of a mask.
-- `HashMap<Key, Node>` is a list of entries inside the block, since the trie holds itself.
pub mod Paths
pub mod WellFormed
pub mod Stored
pub mod Insertion
pub mod Removal
pub mod Matching
pub mod Induction
pub mod Globs
pub mod Deletion
pub mod Iteration
pub mod Printing
pub mod Table
pub mod Alike
use titanirc.Base.{
  ℕ, zero, suc, ◌+◌, Bool, true, false, ◌&&◌, Option, none, some, List, [], ◌∷◌, ◌++◌,
  if◌then◌else◌, nat_beq, is_none, is_some, unwrap_or, length, Text, text,
}
use titanirc.HostMask.{HostMask}

pub data Key : Type 0 where
  wildcard end_of_string : Key
  char : ℕ → Key

abbrev pub key_beq : Key → Key → Bool
key_beq wildcard wildcard = true
key_beq end_of_string end_of_string = true
key_beq (char c) (char d) = nat_beq c d
key_beq _ _ = false

-- `Key::is_end`
abbrev pub is_end : Key → Bool
is_end (char c) = false
is_end _ = true

pub data Matcher : Type 0 where
  nick username host : Matcher

-- `Matcher::next`
abbrev pub next : Matcher → Option Matcher
next nick = some username
next username = some host
next host = none

-- `Matcher::splitter`
abbrev pub splitter : Matcher → Text
splitter nick = text "!"
splitter username = text "@"
splitter host = []

mutual
  pub data HostMaskMap (T : Type 0) : Type 0 where
    host_mask_map : Children T → Matcher → HostMaskMap T

  pub data Node (T : Type 0) : Type 0 where
    match_value : T → Node T
    inner : HostMaskMap T → Node T

  -- `HashMap<Key, Node<T>>`
  pub data Children (T : Type 0) : Type 0 where
    nil : Children T
    entry : Key → Node T → Children T → Children T

-- `take_next_char`: the first character, and what is left.
abbrev pub take_next_char : Text → Option ℕ × Text
take_next_char [] = (none, [])
take_next_char (c ∷ s) = (some c, s)

-- The `match self.matcher` that opens each operation.
abbrev pub take_next : Matcher → HostMask → Option ℕ × HostMask
take_next nick mask = let (c, rest) = take_next_char mask.nick in (c, record mask { nick = rest })
take_next username mask =
    let (c, rest) = take_next_char mask.username in (c, record mask { username = rest })
take_next host mask = let (c, rest) = take_next_char mask.host in (c, record mask { host = rest })

-- The key under which a stored mask goes on.
abbrev pub stored_key : Option ℕ → Key
stored_key none = end_of_string
stored_key (some c) = if nat_beq c b'*' then wildcard else char c

-- The key that a looked-up mask follows: `key.map_or(Key::EndOfString, Key::Char)`.
abbrev pub lookup_key : Option ℕ → Key
lookup_key none = end_of_string
lookup_key (some c) = char c

module _ {T : Type 0} where
  -- `HostMaskMap::new`
  abbrev pub new : HostMaskMap T
  new = host_mask_map nil nick

  -- `HostMaskMap::is_empty`
  abbrev pub is_empty : HostMaskMap T → Bool
  is_empty (host_mask_map nil m) = true
  is_empty (host_mask_map (entry k n cs) m) = false

  abbrev pub matcher_of : HostMaskMap T → Matcher
  matcher_of (host_mask_map cs m) = m

  -- `HashMap::get`, `insert` and `remove` on the children.
  abbrev pub child : Key → Children T → Option (Node T)
  child k nil = none
  child k (entry j n cs) = if key_beq j k then some n else child k cs

  abbrev pub put_child : Key → Node T → Children T → Children T
  put_child k n nil = entry k n nil
  put_child k n (entry j o cs) = if key_beq j k then entry k n cs else entry j o (put_child k n cs)

  abbrev pub remove_child : Key → Children T → Children T
  remove_child k nil = nil
  remove_child k (entry j n cs) =
      if key_beq j k then remove_child k cs else entry j n (remove_child k cs)

-- How an insertion ends: the new trie, the `unreachable!` of the source, or no fuel left.
pub data Outcome (A : Type 0) : Type 0 where
  done : A → Outcome A
  unreachable : Outcome A
  out_of_fuel : Outcome A

-- `key.is_end() && self.matcher.next().is_none()`
abbrev pub is_leaf : Matcher → Key → Bool
is_leaf m k = is_end k && is_none (next m)

-- The matcher of the map below a key.
abbrev pub child_matcher : Matcher → Key → Matcher
child_matcher m k = if is_end k then unwrap_or (next m) m else m

-- What `insert` needs at most: a level for each character and each section.
abbrev pub weight : Matcher → HostMask → ℕ
weight nick mask = length mask.nick + length mask.username + length mask.host + 3
weight username mask = length mask.username + length mask.host + 2
weight host mask = length mask.host + 1

module _ {T : Type 0} where
  -- The entry's node, or the new inner node of `or_insert_with`.
  abbrev pub node_or_new : Matcher → Key → Children T → Node T
  node_or_new m k cs = unwrap_or (child k cs) (inner (host_mask_map nil (child_matcher m k)))

  -- Puts the map that the recursive call returns back into its entry.
  abbrev pub put_inner :
      Key → Children T → Matcher → Outcome (HostMaskMap T) → Outcome (HostMaskMap T)
  put_inner k cs m (done r) = done (host_mask_map (put_child k (inner r) cs) m)
  put_inner k cs m unreachable = unreachable
  put_inner k cs m out_of_fuel = out_of_fuel

  unfoldable pub insert_fuel : ℕ → HostMaskMap T → HostMask → T → Outcome (HostMaskMap T)
  insert_fuel zero map mask value = out_of_fuel
  insert_fuel (suc fuel) (host_mask_map cs m) mask value =
      let (c, next_mask) = take_next m mask in
      let k : Key = stored_key c in
      elim (is_leaf m k) [
        | true ↦ done (host_mask_map (put_child k (match_value value) cs) m)
        | false ↦ elim (node_or_new m k cs) [
          | match_value v ↦ unreachable
          | inner r ↦ put_inner k cs m (insert_fuel fuel r next_mask value)
        ]
      ]

  -- The map that an insertion leaves. `insert_done` below `Stored` shows that it is always the
  -- first case for the maps that the program builds.
  abbrev pub outcome_or : HostMaskMap T → Outcome (HostMaskMap T) → HostMaskMap T
  outcome_or map (done r) = r
  outcome_or map _ = map

  -- `HostMaskMap::insert`
  unfoldable pub insert : HostMaskMap T → HostMask → T → HostMaskMap T
  insert map mask value = outcome_or map (insert_fuel (weight (matcher_of map) mask) map mask value)

-- `HostMaskMap::remove` walks down the trie. A child is found and descended into in one pass.
unfoldable mutual
  pub remove : {T : Type 0} → HostMaskMap T → HostMask → HostMaskMap T × Bool
  remove (host_mask_map cs m) mask =
      let (c, next_mask) = take_next m mask in
      let k : Key = stored_key c in
      let below = remove_below cs k next_mask in
      if is_leaf m k
      then (host_mask_map (remove_child k cs) m, is_some (child k cs))
      else (host_mask_map below.0 m, below.1)

  -- `unreachable!` is the case of a `match_value` here: it leaves the map alone.
  pub remove_node : {T : Type 0} → Node T → HostMask → Node T × Bool
  remove_node (match_value v) mask = (match_value v, false)
  remove_node (inner map) mask = let (r, found) = remove map mask in (inner r, found)

  pub remove_below : {T : Type 0} → Children T → Key → HostMask → Children T × Bool
  remove_below nil k mask = (nil, false)
  remove_below (entry j n cs) k mask =
      let here = remove_node n mask in
      let there = remove_below cs k mask in
      if key_beq j k then (entry j here.0 cs, here.1) else (entry j n there.0, there.1)

-- `get_inner` and `traverse`; `get_below` is `self.children.get(k)` with the traversal of what it
-- finds.
unfoldable mutual
  pub get_inner : {T : Type 0} → HostMaskMap T → HostMask → List T → List T
  get_inner (host_mask_map cs m) mask out =
      let (c, next_mask) = take_next m mask in
      get_below cs wildcard next_mask (get_below cs (lookup_key c) next_mask out)

  pub traverse : {T : Type 0} → Node T → HostMask → List T → List T
  traverse (match_value v) mask out = out ++ v ∷ []
  traverse (inner map) mask out = get_inner map mask out

  pub get_below : {T : Type 0} → Children T → Key → HostMask → List T → List T
  get_below nil k mask out = out
  get_below (entry j n cs) k mask out =
      if key_beq j k then traverse n mask out else get_below cs k mask out

-- The text so far and the matcher, past a key.
abbrev pub extend : Text → Matcher → Key → Text × Matcher
extend s last_seen wildcard =
    (s ++ (b'*' ∷ splitter last_seen), unwrap_or (next last_seen) last_seen)
extend s last_seen end_of_string = (s ++ splitter last_seen, unwrap_or (next last_seen) last_seen)
extend s last_seen (char c) = (s ++ c ∷ [], last_seen)

unfoldable mutual
  pub iter_inner : {T : Type 0} → HostMaskMap T → Text → Matcher → List (Text × T)
  iter_inner (host_mask_map cs m) s last_seen = iter_children cs s last_seen

  pub iter_node : {T : Type 0} → Node T → Text → Matcher → List (Text × T)
  iter_node (match_value v) s last_seen = (s, v) ∷ []
  iter_node (inner map) s last_seen = iter_inner map s last_seen

  pub iter_children : {T : Type 0} → Children T → Text → Matcher → List (Text × T)
  iter_children nil s last_seen = []
  iter_children (entry k n cs) s last_seen =
      let (s', next_matcher) = extend s last_seen k in
      iter_node n s' next_matcher ++ iter_children cs s last_seen

module _ {T : Type 0} where
  -- `HostMaskMap::get`
  unfoldable pub get : HostMaskMap T → HostMask → List T
  get map mask = get_inner map mask []

  -- `HostMaskMap::iter`
  unfoldable pub iter : HostMaskMap T → List (Text × T)
  iter map = iter_inner map [] (matcher_of map)

  -- The loop of `FromIterator::from_iter`.
  unfoldable pub insert_all : List (HostMask × T) → HostMaskMap T → HostMaskMap T
  insert_all [] out = out
  insert_all ((k, v) ∷ rest) out = insert_all rest (insert out k v)

  unfoldable pub from_iter : List (HostMask × T) → HostMaskMap T
  from_iter xs = insert_all xs new
