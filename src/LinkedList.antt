-- ===== src/LinkedList.antt =====
-- include/eeos/list.h: circular doubly linked lists. A node is its address, and the heap gives the
-- two pointers of every node; NULL is 0. Each function returns the heap that it leaves. The names
-- with __ in front have `raw_` here. The entry macros add container_of, an offset, to an address.
pub mod Nodes
pub mod Chains
pub mod Laws
pub mod Loops
pub mod Entries
use armv8_os.Run.{Run, done, out}
use armv8_os.Prelude.{ℕ, zero, suc, Bool, Option, none, some, ◌==◌, if◌then◌else◌, List, [], ◌∷◌}

pub record Links : Type 0 where
  pub next : ℕ → ℕ
  pub prev : ℕ → ℕ

-- u->next = v
abbrev pub set_next : Links → ℕ → ℕ → Links
set_next h u v = record h { next = λ a. if a == u then v else h.next a }

-- u->prev = v
abbrev pub set_prev : Links → ℕ → ℕ → Links
set_prev h u v = record h { prev = λ a. if a == u then v else h.prev a }

unfoldable pub init_list_head : Links → ℕ → Links
init_list_head h list = set_prev (set_next h list list) list list

unfoldable pub raw_list_add : Links → (new prev next : ℕ) → Links
raw_list_add h new prev next =
    set_next (set_prev (set_next (set_prev h next new) new next) new prev) prev new

unfoldable pub list_add : Links → (new head : ℕ) → Links
list_add h new head = raw_list_add h new head (h.next head)

unfoldable pub list_add_tail : Links → (new head : ℕ) → Links
list_add_tail h new head = raw_list_add h new (h.prev head) head

unfoldable pub raw_list_del : Links → (prev next : ℕ) → Links
raw_list_del h prev next = set_next (set_prev h next prev) prev next

unfoldable pub raw_list_del_clearprev : Links → ℕ → Links
raw_list_del_clearprev h entry = set_prev (raw_list_del h (h.prev entry) (h.next entry)) entry 0

unfoldable pub list_del : Links → ℕ → Links
list_del h entry = raw_list_del h (h.prev entry) (h.next entry)

unfoldable pub list_replace : Links → (old new : ℕ) → Links
list_replace h old new =
    let h1 = set_next h new (h.next old) in
    let h2 = set_prev h1 (h1.next new) new in
    let h3 = set_prev h2 new (h2.prev old) in set_next h3 (h3.prev new) new

unfoldable pub list_replace_init : Links → (old new : ℕ) → Links
list_replace_init h old new = init_list_head (list_replace h old new) old

unfoldable pub list_is_first : Links → (list head : ℕ) → Bool
list_is_first h list head = h.prev list == head

unfoldable pub list_is_last : Links → (list head : ℕ) → Bool
list_is_last h list head = h.next list == head

unfoldable pub list_empty : Links → ℕ → Bool
list_empty h head = h.next head == head

-- The address of the first entry's node, NULL if there is none.
unfoldable pub list_first_entry_or_null : Links → ℕ → Option ℕ
list_first_entry_or_null h ptr = if h.next ptr == ptr then none else some (h.next ptr)

-- Each loop as the sequence of nodes that its body sees, from the cursor `pos` on, for a body that
-- changes no link.
unfoldable pub list_for_each : ℕ → Links → (pos head : ℕ) → Run (List ℕ)
list_for_each zero h pos head = out
list_for_each (suc fuel) h pos head =
    let rest = list_for_each fuel h (h.next pos) head in
    if pos == head then done [] else (elim rest [ out ↦ out | done xs ↦ done (pos ∷ xs) ])

unfoldable pub list_for_each_prev : ℕ → Links → (pos head : ℕ) → Run (List ℕ)
list_for_each_prev zero h pos head = out
list_for_each_prev (suc fuel) h pos head =
    let rest = list_for_each_prev fuel h (h.prev pos) head in
    if pos == head then done [] else (elim rest [ out ↦ out | done xs ↦ done (pos ∷ xs) ])
