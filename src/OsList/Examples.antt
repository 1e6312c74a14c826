-- ===== src/OsList/Examples.antt =====
-- The lists at a concrete store: the list at 10 holds the items 1 and 2, whose owners are 101 and
-- 102 and whose values are 5 and 9; the item 3, of value 7 and owner 103, is in no list.
use ak_m_os_the_simple_rtos.Base.{
  ℕ, ◌≡◌, refl, inr, [], ◌∷◌, arith, ◌>>=◌, ◌>>◌, Returns, returns, update,
}
use ak_m_os_the_simple_rtos.OsList.{
  Items, read, write, os_list_init, os_list_insert_end, os_list_insert, os_list_remove,
  list_get_owner_of_next_item, link_after, walk, count_up,
}
use ak_m_os_the_simple_rtos.OsList.Ring.{IsList, SameOutside}
use ak_m_os_the_simple_rtos.OsList.Insert.{Fits, Inserted, insert_end-append}
use ak_m_os_the_simple_rtos.OsList.Sorted.{before, behind, IsSorted, insert-placed, insert-IsSorted}
use ak_m_os_the_simple_rtos.OsList.Remove.{Removed, remove-Removed}
use ak_m_os_the_simple_rtos.OsList.Turn.{Turned, turns, turns-round}
use ak_m_os_the_simple_rtos.OsList.Renew.{init-IsList, next_item-remove}

abbrev table : (ℕ × ℕ × ℕ × ℕ) → ℕ → ℕ
table (a, b, c, d) = update (update (update (update (λ _. 0) 1 a) 2 b) 3 c) 10 d

abbrev store : Items
store = record {
  next = table (2, 10, 0, 1);
  prev = table (10, 1, 0, 2);
  value = table (5, 9, 7, 0xffffffff);
  owner = table (101, 102, 103, 0);
  list = table (10, 10, 0, 0);
  curr = table (0, 0, 0, 1);
  num = table (0, 0, 0, 2);
}

store-IsList : IsList store 10 (1 ∷ 2 ∷ [])
store-IsList = record {
  links = ground arith;
  distinct = ground arith;
  not_null = refl;
  count = refl;
  small = omega arith;
  inside = λ p m. ground arith;
  words = λ p m. ground arith;
  mark = refl;
  cursor = inr refl;
}

three-Fits : Fits store 10 (1 ∷ 2 ∷ []) 3
three-Fits = record {
  apart = refl;
  not_null = ground arith;
  word = ground arith;
  room = omega arith;
}

-- The item 3 goes in between 1 and 2, and a whole round visits 2, 1 and 3.
insert_then_turns :
    Returns (λ os _. os ≡ 103 ∷ 102 ∷ 101 ∷ []) ((os_list_insert 10 3 >> turns 3 10) store)
unfolding os_list_insert turns read write link_after walk count_up list_get_owner_of_next_item
insert_then_turns = returns refl

init-IsList_example :
    Returns (λ _ h'. IsList h' 20 [] × SameOutside (20 ∷ []) store h') (os_list_init 20 store)
init-IsList_example = init-IsList store 20 (ground arith)

insert_end-append_example :
    Returns
      (λ _. Inserted store 10 3 (1 ∷ 2 ∷ []) (1 ∷ 2 ∷ 3 ∷ []) 1)
      (os_list_insert_end 10 3 store)
insert_end-append_example = insert_end-append (1 ∷ 2 ∷ []) store-IsList three-Fits

insert-placed_example :
    Returns (λ _. Inserted store 10 3 (1 ∷ 2 ∷ []) (1 ∷ 3 ∷ 2 ∷ []) 1) (os_list_insert 10 3 store)
unfolding before behind
insert-placed_example = insert-placed (1 ∷ 2 ∷ []) store-IsList three-Fits

insert-IsSorted_example :
    Returns
      (λ _ h'. IsList h' 10 (1 ∷ 3 ∷ 2 ∷ []) × IsSorted h'.value (1 ∷ 3 ∷ 2 ∷ []))
      (os_list_insert 10 3 store)
unfolding before behind
insert-IsSorted_example = insert-IsSorted (1 ∷ 2 ∷ []) store-IsList three-Fits (omega arith)

remove-Removed_example : Returns (Removed store 10 1 [] (2 ∷ [])) (os_list_remove 1 store)
remove-Removed_example = remove-Removed [] (2 ∷ []) store-IsList

turns-round_example : Returns (Turned store 10 (1 ∷ 2 ∷ []) (2 ∷ 1 ∷ []) 1) (turns 2 10 store)
turns-round_example = turns-round 1 [] (2 ∷ []) store-IsList refl

next_item-remove_example :
    Returns (λ o _. o ≡ 102) ((os_list_remove 1 >>= λ _. list_get_owner_of_next_item 10) store)
next_item-remove_example = next_item-remove [] 1 2 [] store-IsList refl
