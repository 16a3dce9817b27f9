-- ===== src/LinkedList/Entries.antt =====
-- The macros of include/eeos/list.h for the structures that the nodes stand in, over container_of of
-- include/eeos/container_of.h, and the loops whose body may remove the entry. `member` is the offset of
-- the node in the structure.
pub mod Laws
use armv8_os.Run.{Run, done, out}
use armv8_os.Prelude.{ℕ, zero, suc, ◌+◌, ◌-◌, ◌%◌, ◌^◌, Bool, ◌==◌, if◌then◌else◌, List, [], ◌∷◌}
use armv8_os.LinkedList.{Links}

module _ (member : ℕ) where
  -- container_of(ptr, type, member)
  unfoldable pub list_entry : ℕ → ℕ
  list_entry ptr = (ptr + 2 ^ 64 - member) % 2 ^ 64

  -- &pos->member
  unfoldable pub node_of : ℕ → ℕ
  node_of pos = (pos + member) % 2 ^ 64

  abbrev pub list_first_entry : Links → ℕ → ℕ
  list_first_entry h ptr = list_entry (h.next ptr)

  abbrev pub list_last_entry : Links → ℕ → ℕ
  list_last_entry h ptr = list_entry (h.prev ptr)

  abbrev pub list_next_entry : Links → ℕ → ℕ
  list_next_entry h pos = list_entry (h.next (node_of pos))

  abbrev pub list_prev_entry : Links → ℕ → ℕ
  list_prev_entry h pos = list_entry (h.prev (node_of pos))

  abbrev pub list_entry_is_head : (pos head : ℕ) → Bool
  list_entry_is_head pos head = node_of pos == head

  -- The entries that the body sees, from the cursor `pos` on, for a body that changes no link.
  unfoldable pub entry_loop : ℕ → Links → (pos head : ℕ) → Run (List ℕ)
  entry_loop zero h pos head = out
  entry_loop (suc fuel) h pos head =
      let rest = entry_loop fuel h (list_next_entry h pos) head in
      if list_entry_is_head pos head
      then done []
      else (elim rest [ out ↦ out | done xs ↦ done (pos ∷ xs) ])

  unfoldable pub list_for_each_entry : ℕ → Links → (head : ℕ) → Run (List ℕ)
  list_for_each_entry fuel h head = entry_loop fuel h (list_first_entry h head) head

  unfoldable pub reverse_loop : ℕ → Links → (pos head : ℕ) → Run (List ℕ)
  reverse_loop zero h pos head = out
  reverse_loop (suc fuel) h pos head =
      let rest = reverse_loop fuel h (list_prev_entry h pos) head in
      if list_entry_is_head pos head
      then done []
      else (elim rest [ out ↦ out | done xs ↦ done (pos ∷ xs) ])

  unfoldable pub list_for_each_entry_reverse : ℕ → Links → (head : ℕ) → Run (List ℕ)
  list_for_each_entry_reverse fuel h head = reverse_loop fuel h (list_last_entry h head) head

-- list_for_each_continue: the nodes behind `pos`.
unfoldable pub continue_loop : ℕ → Links → (pos head : ℕ) → Run (List ℕ)
continue_loop zero h pos head = out
continue_loop (suc fuel) h pos head =
    let rest = continue_loop fuel h (h.next pos) head in
    if h.next pos == head
    then done []
    else (elim rest [ out ↦ out | done xs ↦ done (h.next pos ∷ xs) ])

unfoldable pub list_for_each_continue : ℕ → Links → (pos head : ℕ) → Run (List ℕ)
list_for_each_continue fuel h pos head = continue_loop fuel h pos head

-- A body changes a state that the links are part of.
module _ {S : Type 0} (links : S → Links) (body : ℕ → S → S) where
  unfoldable pub safe_loop : ℕ → (pos n head : ℕ) → S → Run S
  safe_loop zero pos n head s = out
  safe_loop (suc fuel) pos n head s =
      let rest = safe_loop fuel n ((links (body pos s)).next n) head (body pos s) in
      if pos == head then done s else rest

  unfoldable pub list_for_each_safe : ℕ → (head : ℕ) → S → Run S
  list_for_each_safe fuel head s =
      let pos = (links s).next head in safe_loop fuel pos ((links s).next pos) head s

  unfoldable pub prev_safe_loop : ℕ → (pos n head : ℕ) → S → Run S
  prev_safe_loop zero pos n head s = out
  prev_safe_loop (suc fuel) pos n head s =
      let rest = prev_safe_loop fuel n ((links (body pos s)).prev n) head (body pos s) in
      if pos == head then done s else rest

  unfoldable pub list_for_each_prev_safe : ℕ → (head : ℕ) → S → Run S
  list_for_each_prev_safe fuel head s =
      let pos = (links s).prev head in prev_safe_loop fuel pos ((links s).prev pos) head s

  module _ (member : ℕ) where
    unfoldable pub entry_safe_loop : ℕ → (pos n head : ℕ) → S → Run S
    entry_safe_loop zero pos n head s = out
    entry_safe_loop (suc fuel) pos n head s =
        let next = list_next_entry member (links (body pos s)) n in
        let rest = entry_safe_loop fuel n next head (body pos s) in
        if list_entry_is_head member pos head then done s else rest

    unfoldable pub list_for_each_entry_safe : ℕ → (head : ℕ) → S → Run S
    list_for_each_entry_safe fuel head s =
        let pos = list_first_entry member (links s) head in
        entry_safe_loop fuel pos (list_next_entry member (links s) pos) head s
