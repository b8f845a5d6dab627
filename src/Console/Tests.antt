-- ===== src/Console/Tests.antt =====
-- The console's texts on concrete inputs. The letters are written as their codes: 0x41 is A.
use bxos.Common.{ℕ, none, some, List, [], ◌∷◌, true, ◌≡◌, refl, arith, ◌<◌}
use bxos.Console.{split_two_args}
use bxos.Common.Int.{pos}
use bxos.Task.Tests.{three}
use bxos.Fifo.{Fifo}
use bxos.Console.Events.{
  BxEvent, EventQueue, no_event, bx_event_resize, event_at, find_resize, bx_event_post, take_event,
}
use bxos.Console.Paths.{normalize_path}
use bxos.Console.History.{cons_history_add, same_text}
use bxos.Console.Bounds.{IsAbsolute, IfSome, normalize_path-IsAbsolute}
use bxos.Console.Commands.{IsHistory, last_of, cons_history_add-IsHistory}

-- "a b" in "/"
two_args_test :
    split_two_args (0x20 ∷ 0x61 ∷ 0x20 ∷ 0x20 ∷ 0x62 ∷ 0x20 ∷ []) ≡ some (0x61 ∷ [], 0x62 ∷ [])
unfolding split_two_args
two_args_test = refl

-- "b//./c" in "/A" is "/A/B/C"
relative_test :
    normalize_path (0x2f ∷ 0x41 ∷ []) (0x62 ∷ 0x2f ∷ 0x2f ∷ 0x2e ∷ 0x2f ∷ 0x63 ∷ [])
    ≡ some (0x2f ∷ 0x41 ∷ 0x2f ∷ 0x42 ∷ 0x2f ∷ 0x43 ∷ [])
unfolding normalize_path
relative_test = refl

-- ".." in "/A/B" is "/A/", with its slash
parent_test :
    normalize_path (0x2f ∷ 0x41 ∷ 0x2f ∷ 0x42 ∷ []) (0x2e ∷ 0x2e ∷ [])
    ≡ some (0x2f ∷ 0x41 ∷ 0x2f ∷ [])
unfolding normalize_path
parent_test = refl

-- "/A/B/../C" is "/A//C"
double_slash_test :
    normalize_path (0x2f ∷ []) (0x2f ∷ 0x41 ∷ 0x2f ∷ 0x42 ∷ 0x2f ∷ 0x2e ∷ 0x2e ∷ 0x2f ∷ 0x43 ∷ [])
    ≡ some (0x2f ∷ 0x41 ∷ 0x2f ∷ 0x2f ∷ 0x43 ∷ [])
unfolding normalize_path
double_slash_test = refl

-- "/A/B/../C/../.." is "/A/", although the root is meant
wrong_parent_test :
    normalize_path (0x2f ∷ []) (
      0x2f ∷ 0x41 ∷ 0x2f ∷ 0x42 ∷ 0x2f ∷ 0x2e ∷ 0x2e ∷ 0x2f ∷ 0x43 ∷ 0x2f ∷ 0x2e ∷ 0x2e ∷ 0x2f
      ∷ 0x2e ∷ 0x2e ∷ [])
    ≡ some (0x2f ∷ 0x41 ∷ 0x2f ∷ [])
unfolding normalize_path
wrong_parent_test = refl

normalize_path-IsAbsolute_example :
    IfSome IsAbsolute (normalize_path (0x2f ∷ 0x41 ∷ []) (0x62 ∷ []))
normalize_path-IsAbsolute_example = normalize_path-IsAbsolute (0x2f ∷ 0x41 ∷ []) (0x62 ∷ [])

abbrev one_command : List (List ℕ)
one_command = (0x61 ∷ []) ∷ []

one_command-IsHistory : IsHistory one_command
unfolding same_text
one_command-IsHistory = (omega arith, (omega arith, refl, tt))

cons_history_add-IsHistory_example :
    IsHistory (cons_history_add one_command (0x62 ∷ []))
    × (0 < 1 → same_text (last_of [] (cons_history_add one_command (0x62 ∷ []))) (0x62 ∷ []) ≡ true)
cons_history_add-IsHistory_example =
    cons_history_add-IsHistory one_command (0x62 ∷ []) one_command-IsHistory

abbrev ring : Fifo
ring = record { buf = pos 0 ∷ pos 0 ∷ []; p = 0; q = 0; size = 2; free = 2; flags = 0; task = none }

-- A window's resize waits in slot 1, the last of two; a second one only renews its size.
abbrev resize_to : ℕ → ℕ → BxEvent
resize_to win w = record no_event { kind = bx_event_resize; win = win; w = pos w }

abbrev two_events : EventQueue
two_events = record {
  event_buf = record no_event { kind = 2 } ∷ resize_to 3 100 ∷ [];
  event_size = 2;
  event_p = 1;
  event_count = 1;
}

coalesced_test : (event_at (bx_event_post (resize_to 3 120) two_events ring three).0 0).w ≡ pos 120
unfolding bx_event_post find_resize
coalesced_test = refl

-- One of another window is added behind it, and goes round the end.
added_test : (bx_event_post (resize_to 4 120) two_events ring three).0.event_count ≡ 2
unfolding bx_event_post find_resize
added_test = refl

taken_test :
    take_event (bx_event_post (resize_to 4 120) two_events ring three).0
    ≡ some (
      resize_to 3 100,
      record {
        event_buf = resize_to 4 120 ∷ resize_to 3 100 ∷ [];
        event_size = 2;
        event_p = 0;
        event_count = 1;
      },
    )
unfolding bx_event_post find_resize take_event
taken_test = refl
