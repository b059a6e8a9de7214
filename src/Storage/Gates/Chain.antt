-- ===== src/Storage/Gates/Chain.antt =====
-- What an accepted gate chain guarantees.
use agent_vigilo.Prelude.{
  ◌+◌, ◌≡◌, refl, ◌∙◌, true, false, Option, none, some, List, [], ◌∷◌, ◌++◌, arith, leb→le,
  and-eq-true, length, is_empty, last?, all, All, length-append, ok, >>=-eq-ok,
}
use agent_vigilo.Prelude.Int.{
  ℤ, pos, pos_part, neg_part, ◌≤ℤ◌, leb_ℤ, eqb_ℤ→eq, pos-pos_part, checked_sub, to_i32,
  checked_sub_falls,
}
use agent_vigilo.Prelude.Text.{Text}
use agent_vigilo.Storage.Limits.{FormatLimits}
use agent_vigilo.Storage.Object.{ObjectRef}
use agent_vigilo.Storage.Gates.{
  GateCount, GateCountPage, precedes, check_gates, validate_gate_page, GateCountDescriptor,
  validate_gate_descriptor, GateCountChainValidator, new, precedes_first, terminates, gate_id_of,
  accept, finish, accept_all,
}

-- Identifiers rise strictly along the list, from the one before it.
abbrev pub Increasing : Option Text → List GateCount → Type 0
Increasing last [] = Unit
Increasing last (e ∷ es) = (precedes last e.gate_id ≡ true) × Increasing (some e.gate_id) es

-- The identifier that stands before what follows a list.
abbrev pub last_gate : Option Text → List GateCount → Option Text
last_gate last [] = last
last_gate last (e ∷ es) = last_gate (some e.gate_id) es

Increasing-append :
    (last : Option Text) (xs ys : List GateCount)
    → Increasing last xs
    → Increasing (last_gate last xs) ys
    → Increasing last (xs ++ ys)
Increasing-append last [] ys a b = b
Increasing-append last (x ∷ xs) ys (p, a) b = (p, Increasing-append (some x.gate_id) xs ys a b)

check_gates-Increasing :
    (previous : Option Text) (es : List GateCount)
    → check_gates previous es ≡ ok tt
    → Increasing previous es
unfolding check_gates
check_gates-Increasing previous [] h = tt
check_gates-Increasing previous (e ∷ es) h =
    let rest : check_gates (some e.gate_id) es ≡ ok tt = ground arith in
    (ground arith, check_gates-Increasing (some e.gate_id) es rest)

-- A page's list, placed behind an identifier that its first one follows.
Increasing-from :
    (last : Option Text) (es : List GateCount)
    → Increasing none es
    → precedes_first last es ≡ true
    → Increasing last es
Increasing-from last [] a p = tt
Increasing-from last (e ∷ es) (q, a) p = (p, a)

gate_id_of-last :
    (last : Option Text) (es : List GateCount)
    → is_empty es ≡ false
    → gate_id_of (last? es) ≡ last_gate last es
gate_id_of-last last [] h = cc
gate_id_of-last last (e ∷ []) h = refl
gate_id_of-last last (e ∷ d ∷ es) h = gate_id_of-last (some e.gate_id) (d ∷ es) refl

-- Of the counts of a list, none is negative and none exceeds the shard's cases.
abbrev pub AreBounded : ℤ → List GateCount → Type 0
AreBounded cases = All λ e. (pos 0 ≤ℤ e.planned_count) × (e.planned_count ≤ℤ cases)

AreBounded-append :
    (cases : ℤ) (xs ys : List GateCount)
    → AreBounded cases xs
    → AreBounded cases ys
    → AreBounded cases (xs ++ ys)
AreBounded-append cases [] ys a b = b
AreBounded-append cases (x ∷ xs) ys (p, a) b = (p, AreBounded-append cases xs ys a b)

check_gates-AreBounded :
    (previous : Option Text) (cases : ℤ) (es : List GateCount)
    → check_gates previous es ≡ ok tt
    → all (λ e. leb_ℤ e.planned_count cases) es ≡ true
    → AreBounded cases es
unfolding check_gates
check_gates-AreBounded previous cases [] h a = tt
check_gates-AreBounded previous cases (e ∷ es) h a =
    let rest : check_gates (some e.gate_id) es ≡ ok tt = ground arith in
    let others : all (λ d. leb_ℤ d.planned_count cases) es ≡ true = ground arith in
    ((ground arith, ground arith), check_gates-AreBounded (some e.gate_id) cases es rest others)

terminates_nonneg :
    (pages entries : ℤ) (next : Option ObjectRef)
    → terminates pages entries next ≡ true
    → (pos 0 ≤ℤ pages) × (pos 0 ≤ℤ entries)
unfolding terminates
terminates_nonneg pages entries next h =
    let a = and-eq-true _ _ h in
    let b = and-eq-true _ _ a.0 in let (p, e) = and-eq-true _ _ b.0 in (leb→le _ _ p, leb→le _ _ e)

-- One accepted page.
pub record IsAdvanced (chain : GateCountChainValidator) (page : GateCountPage)
    (chain' : GateCountChainValidator) : Type 0 where
  pub pages : pos_part chain'.remaining_pages + 1 ≡ pos_part chain.remaining_pages
  pub entries :
      pos_part chain'.remaining_entries + length page.entries ≡ pos_part chain.remaining_entries
  pub pages_left : neg_part chain'.remaining_pages ≡ 0
  pub entries_left : neg_part chain'.remaining_entries ≡ 0
  pub same_cases : chain'.case_count ≡ chain.case_count
  pub rising : Increasing chain.last_gate page.entries
  pub last : chain'.last_gate ≡ last_gate chain.last_gate page.entries
  pub bounded : AreBounded chain.case_count page.entries

accept-IsAdvanced :
    (chain : GateCountChainValidator) (reference : ObjectRef) (page : GateCountPage)
    (limits : FormatLimits) (chain' : GateCountChainValidator)
    → accept chain reference page limits ≡ ok chain'
    → IsAdvanced chain page chain'
unfolding accept validate_gate_page to_i32
accept-IsAdvanced chain reference page limits chain' h =
    let own : check_gates none page.entries ≡ ok tt = ground arith in
    let some_entry : is_empty page.entries ≡ false = ground arith in
    let small : all (λ e. leb_ℤ e.planned_count chain.case_count) page.entries ≡ true =
      ground arith in
    let first : precedes_first chain.last_gate page.entries ≡ true = ground arith in
    let set_last : chain'.last_gate ≡ gate_id_of (last? page.entries) = ground arith in
    let ends : terminates chain'.remaining_pages chain'.remaining_entries page.next ≡ true =
      ground arith in
    let (nonneg, nonneg') = terminates_nonneg _ _ page.next ends in
    let few : checked_sub 31 chain.remaining_pages (pos 1) ≡ some chain'.remaining_pages =
      ground arith in
    let fewer : checked_sub 31 chain.remaining_entries (pos (length page.entries))
        ≡ some chain'.remaining_entries =
      ground arith in
    let (pages, pages_left) = checked_sub_falls 31 _ 1 few nonneg in
    let (entries, entries_left) = checked_sub_falls 31 _ (length page.entries) fewer nonneg' in
    record {
      pages = pages;
      entries = entries;
      pages_left = pages_left;
      entries_left = entries_left;
      same_cases = ground arith;
      rising =
          Increasing-from chain.last_gate page.entries
            (check_gates-Increasing none page.entries own) first;
      last = set_last ∙ gate_id_of-last chain.last_gate page.entries some_entry;
      bounded = check_gates-AreBounded none chain.case_count page.entries own small;
    }

-- All the entries of a sequence of pages, in order.
abbrev pub all_entries : List (ObjectRef × GateCountPage) → List GateCount
all_entries [] = []
all_entries ((reference, page) ∷ rest) = page.entries ++ all_entries rest

pub record IsTraversed (chain : GateCountChainValidator) (pages : List (ObjectRef × GateCountPage))
    (chain' : GateCountChainValidator) : Type 0 where
  pub pages_fall : pos_part chain'.remaining_pages + length pages ≡ pos_part chain.remaining_pages
  pub entries_fall :
      pos_part chain'.remaining_entries + length (all_entries pages)
      ≡ pos_part chain.remaining_entries
  pub rising : Increasing chain.last_gate (all_entries pages)
  pub bounded : AreBounded chain.case_count (all_entries pages)

-- Any accepted sequence of pages, finished or not: the pages and entries are counted down exactly,
-- the identifiers rise strictly over all pages, and every count lies between 0 and the shard's
-- cases.
pub accept_all-IsTraversed :
    (limits : FormatLimits) (chain : GateCountChainValidator)
    (pages : List (ObjectRef × GateCountPage)) (chain' : GateCountChainValidator)
    → accept_all limits chain pages ≡ ok chain'
    → IsTraversed chain pages chain'
unfolding accept_all
accept_all-IsTraversed limits chain [] chain' h = record {
  pages_fall = ground arith;
  entries_fall = ground arith;
  rising = tt;
  bounded = tt;
}
accept_all-IsTraversed limits chain ((reference, page) ∷ rest) chain' h =
    let (mid, step, more) =
      >>=-eq-ok (accept chain reference page limits) (λ c. accept_all limits c rest) h in
    let a = accept-IsAdvanced chain reference page limits mid step in
    let t = accept_all-IsTraversed limits mid rest chain' more in
    record {
      pages_fall = omega (arith, a.pages, t.pages_fall);
      entries_fall =
          omega (arith, a.entries, t.entries_fall, length-append page.entries (all_entries rest));
      rising =
          Increasing-append chain.last_gate page.entries (all_entries rest) a.rising
            (rw a.last at t.rising);
      bounded =
          AreBounded-append chain.case_count page.entries (all_entries rest) a.bounded
            (rw a.same_cases at t.bounded);
    }

-- A descriptor's chain that is followed to its end has exactly the described pages and entries, its
-- identifiers rise strictly over all pages, and every count lies between 0 and the shard's cases.
pub finished_chain :
    (d : GateCountDescriptor) (run_shard case_count : ℤ) (limits : FormatLimits)
    (chain chain' : GateCountChainValidator) (pages : List (ObjectRef × GateCountPage))
    → new d run_shard case_count limits ≡ ok chain
    → accept_all limits chain pages ≡ ok chain'
    → finish chain' ≡ ok tt
    → (pos (length pages) ≡ d.page_count)
      × (pos (length (all_entries pages)) ≡ d.entry_count)
      × Increasing none (all_entries pages)
      × AreBounded case_count (all_entries pages)
unfolding new finish validate_gate_descriptor
finished_chain d run_shard case_count limits chain chain' pages h t f =
    let made : chain ≡ record {
      next = d.first;
      remaining_pages = d.page_count;
      remaining_entries = d.entry_count;
      run_shard = run_shard;
      case_count = case_count;
      last_gate = none;
    } =
      ground arith in
    let p = rw made at (accept_all-IsTraversed limits chain pages chain' t) in
    let few = eqb_ℤ→eq chain'.remaining_pages (pos 0) (ground arith) in
    let none_left = eqb_ℤ→eq chain'.remaining_entries (pos 0) (ground arith) in
    let pages_pos : pos 0 ≤ℤ d.page_count = ground arith in
    let entries_pos : pos 0 ≤ℤ d.entry_count = ground arith in
    (
      ground (arith, p.pages_fall, pos-pos_part d.page_count pages_pos),
      ground (arith, p.entries_fall, pos-pos_part d.entry_count entries_pos),
      p.rising,
      p.bounded,
    )

-- Before any page is read, the descriptor bounds the pages that can be accepted: a chain of pages
-- that leads back to itself is refused after `page_count` of them.
pub accepted-le-page_count :
    (d : GateCountDescriptor) (run_shard case_count : ℤ) (limits : FormatLimits)
    (chain chain' : GateCountChainValidator) (pages : List (ObjectRef × GateCountPage))
    → new d run_shard case_count limits ≡ ok chain
    → accept_all limits chain pages ≡ ok chain'
    → pos (length pages) ≤ℤ d.page_count
unfolding new validate_gate_descriptor
accepted-le-page_count d run_shard case_count limits chain chain' pages h t =
    let p = accept_all-IsTraversed limits chain pages chain' t in ground (arith, p.pages_fall)
