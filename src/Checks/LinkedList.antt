-- ===== src/Checks/LinkedList.antt =====
-- Runs and examples of include/eeos/list.h: the list at 10 with the entries 20, 30 and 40.
use armv8_os.Run.{done, Ends}
use armv8_os.Prelude.{◌≡◌, refl, [], ◌∷◌, arith, ℕ, Bool, leb}
use armv8_os.LinkedList.{
  Links, init_list_head, raw_list_add, list_add, list_add_tail, list_del, list_replace_init,
  list_for_each, list_for_each_prev, raw_list_del,
}
use armv8_os.LinkedList.Entries.{
  list_entry, list_for_each_entry, list_for_each_entry_reverse, list_for_each_entry_safe,
  list_for_each_prev_safe, prev_safe_loop,
}
use armv8_os.LinkedList.Entries.Laws.{
  AreWords, Left, visit, entry_visit, list_for_each_entry_safe-kept, list_for_each_entry-entries,
}
use armv8_os.LinkedList.Chains.{IsList}
use armv8_os.LinkedList.Laws.{
  list_add-IsList, list_add_tail-IsList, list_del-IsList, list_replace_init-IsList,
}
use armv8_os.LinkedList.Loops.{list_for_each-entries, list_for_each_prev-reverse}

abbrev heap : Links
heap = record { next = λ a. 0; prev = λ a. 0 }

abbrev empty : Links
unfolding init_list_head
empty = init_list_head heap 10

-- Three entries, by list_add and list_add_tail.
three : Links
three = list_add_tail (list_add_tail (list_add empty 20 10) 30 10) 40 10

three_entries : list_for_each 5 three (three.next 10) 10 ≡ done (20 ∷ 30 ∷ 40 ∷ [])
unfolding three init_list_head list_add list_add_tail raw_list_add list_for_each
three_entries = refl

three-IsList : IsList three 10 (20 ∷ 30 ∷ 40 ∷ [])
unfolding three init_list_head list_add list_add_tail raw_list_add
three-IsList = ground arith

list_add-IsList_example : IsList (list_add three 50 10) 10 (50 ∷ 20 ∷ 30 ∷ 40 ∷ [])
list_add-IsList_example =
    list_add-IsList three 50 10 (20 ∷ 30 ∷ 40 ∷ []) three-IsList (ground arith)

list_add_tail-IsList_example : IsList (list_add_tail three 50 10) 10 (20 ∷ 30 ∷ 40 ∷ 50 ∷ [])
list_add_tail-IsList_example =
    list_add_tail-IsList three 50 10 (20 ∷ 30 ∷ 40 ∷ []) three-IsList (ground arith)

list_del-IsList_example : IsList (list_del three 30) 10 (20 ∷ 40 ∷ [])
list_del-IsList_example = list_del-IsList three 30 10 (20 ∷ []) (40 ∷ []) three-IsList

list_replace_init-IsList_example :
    IsList (list_replace_init three 30 50) 10 (20 ∷ 50 ∷ 40 ∷ [])
    × IsList (list_replace_init three 30 50) 30 []
list_replace_init-IsList_example =
    list_replace_init-IsList three 30 50 10 (20 ∷ []) (40 ∷ []) three-IsList (ground arith)

list_for_each-entries_example : list_for_each 5 three (three.next 10) 10 ≡ done (20 ∷ 30 ∷ 40 ∷ [])
list_for_each-entries_example =
    list_for_each-entries 5 three 10 (20 ∷ 30 ∷ 40 ∷ []) three-IsList (omega arith)

list_for_each_prev-reverse_example :
    list_for_each_prev 5 three (three.prev 10) 10 ≡ done (40 ∷ 30 ∷ 20 ∷ [])
list_for_each_prev-reverse_example =
    list_for_each_prev-reverse 5 three 10 (20 ∷ 30 ∷ 40 ∷ []) three-IsList (omega arith)

abbrev behind_22 : ℕ → Bool
behind_22 pos = leb 22 pos

three-AreWords : AreWords three
unfolding three init_list_head list_add list_add_tail raw_list_add
three-AreWords = λ a. ground arith

-- The nodes stand 8 bytes behind the start of their entries; the last two are removed.
list_for_each_entry_safe-kept_example : Ends (Left 10 (20 ∷ []) (32 ∷ 22 ∷ 12 ∷ [])) (
    list_for_each_entry_safe
      (λ s. s.0)
      (entry_visit 8 (omega arith) 10 behind_22)
      8
      5
      10
      (three, []))
unfolding list_entry
list_for_each_entry_safe-kept_example =
    list_for_each_entry_safe-kept 8 (omega arith) 10 behind_22 5 three (20 ∷ 30 ∷ 40 ∷ [])
      three-AreWords three-IsList (omega arith)

list_for_each_entry-entries_example :
    (list_for_each_entry 8 5 three 10 ≡ done (12 ∷ 22 ∷ 32 ∷ []))
    × (list_for_each_entry_reverse 8 5 three 10 ≡ done (32 ∷ 22 ∷ 12 ∷ []))
unfolding list_entry
list_for_each_entry-entries_example =
    list_for_each_entry-entries 8 (omega arith) 10 5 three (20 ∷ 30 ∷ 40 ∷ []) three-AreWords
      three-IsList (omega arith)

-- A loop backwards that removes the last two entries.
prev_safe_run :
    list_for_each_prev_safe (λ s. s.0) (visit (leb 30) (λ p. p)) 5 10 (three, [])
    ≡ done (list_del (list_del three 40) 30, 20 ∷ 30 ∷ 40 ∷ [])
unfolding list_for_each_prev_safe prev_safe_loop three init_list_head list_add list_add_tail
    raw_list_add list_del raw_list_del
prev_safe_run = refl
