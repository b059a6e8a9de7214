-- ===== src/Storage/Index/Descent.antt =====
-- Validated edges of an index tree, and what holds along a chain of them.
use agent_vigilo.Prelude.{
  ℕ, suc, ◌+◌, ◌≤◌, ◌<◌, ◌≡◌, refl, ◌∙◌, true, some, arith, ltb, ltb→lt, get_elem?, all, Result, ok,
  ◌>>=◌, ok_or, >>=-eq-ok, ok_or-eq-ok,
}
use agent_vigilo.Prelude.Int.{◌≤ℤ◌, eqb_ℤ→eq}
use agent_vigilo.Prelude.Text.{text_eq}
use agent_vigilo.Storage.Limits.{StorageError, missing_entry, FormatLimits, validate_limits}
use agent_vigilo.Storage.Index.{
  IndexKind, kind_eq, IndexEntry, IndexDescriptor, IndexPage, child_schema, validate_page,
  validate_edge, entry_descriptor, validate_child,
}
use agent_vigilo.Storage.Index.Tiling.{check_entries_bounds, validate_page_entries}

kind_eq→eq : (a b : IndexKind) → kind_eq a b ≡ true → a ≡ b
unfolding kind_eq
kind_eq→eq a b h = ground arith

-- What one validated edge says of the child and of the parent's entry.
pub record IsChild (page : IndexPage) (k : ℕ) (child : IndexPage) : Type 0 where
  pub entry : IndexEntry
  pub found : get_elem? page.entries k ≡ some entry
  pub level_falls : child.level + 1 ≡ page.level
  pub same_kind : child.kind ≡ page.kind
  pub starts : child.range_start ≡ entry.range_start
  pub ends : child.range_end ≡ entry.range_end
  pub within_start : page.range_start ≤ℤ child.range_start
  pub within_end : child.range_end ≤ℤ page.range_end
  pub one_owner :
      all (λ e. text_eq e.object.storage_alias entry.object.storage_alias) child.entries ≡ true

edge-eq-ok :
    (d : IndexDescriptor) (child : IndexPage) (kind : IndexKind) (limits : FormatLimits)
    → validate_edge d child kind limits ≡ ok tt
    → (child.level ≡ d.level)
      × (child.kind ≡ kind)
      × (child.range_start ≡ d.range_start)
      × (child.range_end ≡ d.range_end)
      × (all (λ e. text_eq e.object.storage_alias d.object.storage_alias) child.entries ≡ true)
unfolding validate_edge
edge-eq-ok d child kind limits h = ground (
  arith,
  kind_eq→eq child.kind kind,
  eqb_ℤ→eq child.range_start d.range_start,
  eqb_ℤ→eq child.range_end d.range_end,
)

-- A child that `validate_child` accepts stands one level lower, has the parent's kind, covers
-- exactly the interval of its entry, which lies inside the parent's, and all its entries keep the
-- storage owner of the entry.
pub validate_child-IsChild :
    (page : IndexPage) (k : ℕ) (child : IndexPage) (limits : FormatLimits)
    → validate_child page k child limits ≡ ok tt
    → IsChild page k child
unfolding validate_child entry_descriptor
validate_child-IsChild page k child limits h =
    let edge = λ (e : IndexEntry). validate_edge (entry_descriptor page e) child page.kind limits in
    let lookup : Result StorageError IndexEntry = ok_or (get_elem? page.entries k) missing_entry in
    let v : validate_page page limits ≡ ok tt = ground arith in
    let t : ltb 0 page.level ≡ true = ground arith in
    let rest : (lookup >>= edge) ≡ ok tt = ground arith in
    let (e, o, c) = >>=-eq-ok lookup edge rest in
    let (l, kd, s, n, own) = edge-eq-ok (entry_descriptor page e) child page.kind limits c in
    let g = ok_or-eq-ok (get_elem? page.entries k) missing_entry o in
    let (lo, mid, hi) =
      check_entries_bounds limits (child_schema page) page.entries page.range_start page.range_end k
        (validate_page_entries page limits v) g in
    record {
      entry = e;
      found = g;
      level_falls = omega (arith, ltb→lt 0 page.level t);
      same_kind = kd;
      starts = s;
      ends = n;
      within_start = rw s lo;
      within_end = rw n hi;
      one_owner = own;
    }

-- A chain of validated edges, with its length.
pub data Descent (limits : FormatLimits) (root : IndexPage) : IndexPage → ℕ → Type 0 where
  here : Descent limits root root 0
  down :
      {page : IndexPage} {n : ℕ} (k : ℕ) (child : IndexPage)
      → Descent limits root page n
      → validate_child page k child limits ≡ ok tt
      → Descent limits root child (suc n)

-- Along a chain of validated edges the level falls by one at each edge, the kind stays, and the
-- range stays inside the root's.
pub Descent-bounds :
    (limits : FormatLimits) (root page : IndexPage) (n : ℕ)
    → Descent limits root page n
    → (page.level + n ≡ root.level)
      × (page.kind ≡ root.kind)
      × (root.range_start ≤ℤ page.range_start)
      × (page.range_end ≤ℤ root.range_end)
Descent-bounds limits root page n here = (omega arith, refl, omega arith, omega arith)
Descent-bounds limits root page n (down {page = mid} {n = m} k child d v) =
    let (l, kd, lo, hi) = Descent-bounds limits root mid m d in
    let c = validate_child-IsChild mid k page limits v in
    (
      omega (arith, c.level_falls),
      c.same_kind ∙ kd,
      omega (arith, c.within_start),
      omega (arith, c.within_end),
    )

height_bound : (limits : FormatLimits) → validate_limits limits ≡ ok tt → limits.index_height ≤ 8
unfolding validate_limits
height_bound limits h = ground arith

-- Under admitted limits a traversal from a validated root takes fewer than eight edges.
pub Descent-lt-eight :
    (limits : FormatLimits) (root page : IndexPage) (n : ℕ)
    → validate_limits limits ≡ ok tt
    → validate_page root limits ≡ ok tt
    → Descent limits root page n
    → n < 8
unfolding validate_page
Descent-lt-eight limits root page n l v d =
    let (level, kd, lo, hi) = Descent-bounds limits root page n d in
    let t : ltb root.level limits.index_height ≡ true = ground arith in
    omega (arith, height_bound limits l, ltb→lt root.level limits.index_height t)
