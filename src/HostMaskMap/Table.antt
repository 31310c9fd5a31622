-- ===== src/HostMaskMap/Table.antt =====
-- The trie of src/host_mask.rs against a plain table of masks and their values.
use titanirc.Base.{
  ◌≡◌, refl, ap, sym, ◌∙◌, ◌↔◌, inl, inr, Bool, true, false, ◌&&◌, Option, none, some, is_some,
  List, [], ◌∷◌, arith, if◌then◌else◌, HashMap, lookup, lookup-insert, lookup-remove, Has, All,
  text_beq_iff, Text, PartialEq, Bool-cases, ◌==◌,
}
use titanirc.Base
use titanirc.HostMask.{HostMask, host_mask_beq, to_string}
use titanirc.HostMask.RoundTrip.{IsValid}
use titanirc.HostMaskMap
use titanirc.HostMaskMap.{HostMaskMap, Key, nick, get, iter, new, matcher_of}
use titanirc.HostMaskMap.Paths.{path, path_beq, path_beq_iff}
use titanirc.HostMaskMap.Stored.{stored, stored-empty}
use titanirc.HostMaskMap.Insertion.{stored-insert}
use titanirc.HostMaskMap.Matching.{Has-get}
use titanirc.HostMaskMap.Globs.{IsRoot, insert-IsRoot, new-IsRoot, matches, accepts-path}
use titanirc.HostMaskMap.Deletion.{remove-IsRoot, stored-remove}
use titanirc.HostMaskMap.Iteration.{Has-iter}
use titanirc.HostMaskMap.Printing.{path_inj, render-path}

pub host_mask_beq_iff : (a b : HostMask) → (host_mask_beq a b ≡ true) ↔ (a ≡ b)
host_mask_beq_iff a b = ground (
  arith,
  text_beq_iff a.nick b.nick,
  text_beq_iff a.username b.username,
  text_beq_iff a.host b.host,
)

instance abbrev pub host_mask_eq : PartialEq HostMask
host_mask_eq = record { beq = host_mask_beq; agrees = host_mask_beq_iff }

same_path :
    (a b : HostMask) → IsValid a → IsValid b → path_beq (path nick a) (path nick b) ≡ (a == b)
same_path a b va vb = elim (Bool-cases (a == b)) [
  | inl e ↦
      rw e (
        (path_beq_iff (path nick a) (path nick b)).1 (ap (path nick) ((host_mask_beq_iff a b).0 e)))
  | inr e ↦ rw e (elim (Bool-cases (path_beq (path nick a) (path nick b))) [
    | inr n ↦ n
    | inl y ↦
        let same = path_inj a b va vb ((path_beq_iff (path nick a) (path nick b)).0 y) in
        absurd (cc (e, (host_mask_beq_iff a b).1 same))
  ])
]

-- What a program does to a map.
pub data Op (T : Type 0) : Type 0 where
  put : HostMask → T → Op T
  delete : HostMask → Op T

module _ {T : Type 0} where
  abbrev pub mask_of : Op T → HostMask
  mask_of (put m v) = m
  mask_of (delete m) = m

  abbrev pub perform : HostMaskMap T → Op T → HostMaskMap T
  perform map (put m v) = HostMaskMap.insert map m v
  perform map (delete m) = (HostMaskMap.remove map m).0

  abbrev pub perform_all : HostMaskMap T → List (Op T) → HostMaskMap T
  perform_all map [] = map
  perform_all map (op ∷ ops) = perform_all (perform map op) ops

  -- The same on the table.
  abbrev pub tabulate : HashMap HostMask T → Op T → HashMap HostMask T
  tabulate table (put m v) = Base.insert m v table
  tabulate table (delete m) = Base.remove m table

  abbrev pub tabulate_all : HashMap HostMask T → List (Op T) → HashMap HostMask T
  tabulate_all table [] = table
  tabulate_all table (op ∷ ops) = tabulate_all (tabulate table op) ops

  -- A trie that stores what the table says, under the paths of valid masks.
  pub record Represents (map : HostMaskMap T) (table : HashMap HostMask T) : Type 0 where
    pub rooted : IsRoot map
    pub holds : (m : HostMask) → IsValid m → stored map (path nick m) ≡ lookup m table
    pub valid :
        (q : List Key) (v : T)
        → stored map q ≡ some v
        → (m : HostMask) × IsValid m × (q ≡ path nick m)
    pub only_valid : (m : HostMask) (v : T) → lookup m table ≡ some v → IsValid m

  pub put-Represents :
      (map : HostMaskMap T) (table : HashMap HostMask T) (m : HostMask) (v : T)
      → IsValid m
      → Represents map table
      → Represents (HostMaskMap.insert map m v) (Base.insert m v table)
  put-Represents map table m v valid r = record {
    rooted = insert-IsRoot map m v r.rooted;
    holds = λ n vn.
        rw
          (
            stored-insert map m v (path nick n) r.rooted.well_formed,
            r.rooted.at_nick,
            same_path m n valid vn,
            r.holds n vn,
          )
          (sym (lookup-insert m n v table));
    valid = λ q u e.
        let e' = rw (stored-insert map m v q r.rooted.well_formed, r.rooted.at_nick) at e in
        elim (Bool-cases (path_beq (path nick m) q)) [
          | inl y ↦ (m, valid, sym ((path_beq_iff (path nick m) q).0 y))
          | inr n ↦ r.valid q u (rw n at e')
        ];
    only_valid = λ n u e.
        let e' = sym (lookup-insert m n v table) ∙ e in
        elim (Bool-cases (m == n)) [
          | inl y ↦ rw (← (host_mask_beq_iff m n).0 y) valid
          | inr other ↦ r.only_valid n u (rw other at e')
        ];
  }

  delete-Represents :
      (map : HostMaskMap T) (table : HashMap HostMask T) (m : HostMask)
      → IsValid m
      → Represents map table
      → Represents (HostMaskMap.remove map m).0 (Base.remove m table)
  delete-Represents map table m valid r = record {
    rooted = remove-IsRoot map m r.rooted;
    holds = λ n vn.
        rw ((stored-remove map m (path nick n) r.rooted).0, same_path m n valid vn, r.holds n vn)
          (sym (lookup-remove m n table));
    valid = λ q u e.
        let e' = rw ((stored-remove map m q r.rooted).0) at e in
        elim (Bool-cases (path_beq (path nick m) q)) [
          | inl y ↦ absurd (cc (rw y at e'))
          | inr n ↦ r.valid q u (rw n at e')
        ];
    only_valid = λ n u e.
        let e' = sym (lookup-remove m n table) ∙ e in
        elim (Bool-cases (m == n)) [
          | inl y ↦ absurd (cc (rw y at e'))
          | inr other ↦ r.only_valid n u (rw other at e')
        ];
  }

  pub new-Represents : Represents new []
  new-Represents = record {
    rooted = new-IsRoot;
    holds = λ m v. stored-empty nick (path nick m);
    valid = λ q v e. absurd (cc (e, stored-empty {T = T} nick q));
    only_valid = λ m v e. absurd (cc e);
  }

  pub perform_all-Represents :
      (ops : List (Op T)) (map : HostMaskMap T) (table : HashMap HostMask T)
      → All (λ op. IsValid (mask_of op)) ops
      → Represents map table
      → Represents (perform_all map ops) (tabulate_all table ops)
  perform_all-Represents [] map table valid r = r
  perform_all-Represents (put m v ∷ ops) map table valid r =
      perform_all-Represents ops (HostMaskMap.insert map m v) (Base.insert m v table) valid.1
        (put-Represents map table m v valid.0 r)
  perform_all-Represents (delete m ∷ ops) map table valid r =
      perform_all-Represents ops (HostMaskMap.remove map m).0 (Base.remove m table) valid.1
        (delete-Represents map table m valid.0 r)

  -- What a map of the program answers is what the table says: a lookup finds the values of the
  -- masks that match, and the iteration lists every mask, as text, with its value.
  pub record Answers (map : HostMaskMap T) (table : HashMap HostMask T) : Type 0 where
    pub finds :
        (name : HostMask) (v : T)
        → Has v (get map name)
          ↔ ((m : HostMask) × (lookup m table ≡ some v) × (matches m name ≡ true))
    pub lists :
        (t : Text) (v : T)
        → Has (t, v) (iter map) ↔ ((m : HostMask) × (lookup m table ≡ some v) × (t ≡ to_string m))

  pub represented-finds :
      (map : HostMaskMap T) (table : HashMap HostMask T) (name : HostMask) (v : T)
      → Represents map table
      → Has v (get map name)
        ↔ ((m : HostMask) × (lookup m table ≡ some v) × (matches m name ≡ true))
  represented-finds map table name v r =
      let found = Has-get map name v r.rooted.well_formed in
      (
        λ h.
            let (p, s, a) = found.0 h in
            let (m, valid, at) = r.valid p v s in
            (
              m,
              sym (r.holds m valid) ∙ (ap (stored map) (sym at) ∙ s),
              sym (accepts-path m name) ∙ rw (r.rooted.at_nick, at) at a,
            ),
        λ (m, e, a). found.1 (
          path nick m,
          r.holds m (r.only_valid m v e) ∙ e,
          rw (r.rooted.at_nick, accepts-path m name) a,
        ),
      )

  represented-lists :
      (map : HostMaskMap T) (table : HashMap HostMask T) (t : Text) (v : T)
      → Represents map table
      → Has (t, v) (iter map) ↔ ((m : HostMask) × (lookup m table ≡ some v) × (t ≡ to_string m))
  represented-lists map table t v r =
      let listed = Has-iter map t v r.rooted.well_formed in
      (
        λ h.
            let (p, s, e) = listed.0 h in
            let (m, valid, at) = r.valid p v s in
            (
              m,
              sym (r.holds m valid) ∙ (ap (stored map) (sym at) ∙ s),
              rw (r.rooted.at_nick, at) at e ∙ render-path m valid,
            ),
        λ (m, e, printed).
            let valid = r.only_valid m v e in
            listed.1 (
              path nick m,
              r.holds m valid ∙ e,
              rw (r.rooted.at_nick, render-path m valid) printed,
            ),
      )

  -- Whatever valid masks are inserted into a new map and removed from it, in any order, its lookups
  -- and its iteration answer as a table of masks does to which the same is done.
  pub perform_all-Answers :
      (ops : List (Op T))
      → All (λ op. IsValid (mask_of op)) ops
      → Answers (perform_all new ops) (tabulate_all [] ops)
  perform_all-Answers ops valid =
      let r = perform_all-Represents ops new [] valid new-Represents in
      record {
        finds = λ name v. represented-finds (perform_all new ops) (tabulate_all [] ops) name v r;
        lists = λ t v. represented-lists (perform_all new ops) (tabulate_all [] ops) t v r;
      }
