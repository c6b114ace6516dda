-- ===== src/CommQue/Handle.antt =====
-- The functions of comm_que.h as a client calls them: each first tests its handle for NULL.
use my_common.Common.{ℕ, Bool, true, Option, none, some, List}
use my_common.CommQue.{
  CommQue, Ret, failure, Signal, Timeout, Wake, Outcome, returned, blocked, get_full, get_empty,
  peek_full, put_empty, put_full, put_empty_front, put_full_front, clear, is_full, is_empty,
}

-- A get by handle: the pointer, or that the call still waits, and the queue behind the handle.
pub data Got : Type 0 where
  got : Option ℕ → Option CommQue → Got
  waiting : Option CommQue → Got

abbrev by_handle : Outcome CommQue → Got
by_handle (returned p q) = got p (some q)
by_handle (blocked q) = waiting (some q)

unfoldable pub handle_get_full : Option CommQue → Timeout → List (Wake CommQue) → Got
handle_get_full none t ws = got none none
handle_get_full (some q) t ws = by_handle (get_full t ws q)

unfoldable pub handle_get_empty : Option CommQue → Timeout → List (Wake CommQue) → Got
handle_get_empty none t ws = got none none
handle_get_empty (some q) t ws = by_handle (get_empty t ws q)

unfoldable pub handle_peek_full : Option CommQue → Option ℕ
handle_peek_full none = none
handle_peek_full (some q) = peek_full q

-- `if (!hQue || !pElement) return -1;`, where the functions below test the element.
abbrev put_by_handle :
    (CommQue → Ret × List Signal × CommQue) → Option CommQue → Ret × Option CommQue
put_by_handle put none = (failure, none)
put_by_handle put (some q) = let (r, s, q') = put q in (r, some q')

unfoldable pub handle_put_empty : Option CommQue → Option ℕ → Ret × Option CommQue
handle_put_empty h p = put_by_handle (put_empty p) h

unfoldable pub handle_put_full : Option CommQue → Option ℕ → Ret × Option CommQue
handle_put_full h p = put_by_handle (put_full p) h

unfoldable pub handle_put_empty_front : Option CommQue → Option ℕ → Ret × Option CommQue
handle_put_empty_front h p = put_by_handle (put_empty_front p) h

unfoldable pub handle_put_full_front : Option CommQue → Option ℕ → Ret × Option CommQue
handle_put_full_front h p = put_by_handle (put_full_front p) h

unfoldable pub handle_clear : Option CommQue → Option CommQue
handle_clear none = none
handle_clear (some q) = some (clear q).1

unfoldable pub get_full_count : Option CommQue → ℕ
get_full_count none = 0
get_full_count (some q) = q.full_count

unfoldable pub get_empty_count : Option CommQue → ℕ
get_empty_count none = 0
get_empty_count (some q) = q.empty_count

unfoldable pub handle_is_full : Option CommQue → Bool
handle_is_full none = true
handle_is_full (some q) = is_full q

unfoldable pub handle_is_empty : Option CommQue → Bool
handle_is_empty none = true
handle_is_empty (some q) = is_empty q
