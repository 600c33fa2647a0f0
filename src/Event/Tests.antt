-- ===== src/Event/Tests.antt =====
-- The theorems about the handler list of src/event.c at an input.
use zvbi.Event.Covers.{MaskCovers}
use zvbi.Event.Entries.{mask_of, has_handler, is_found}
use zvbi.Event.Lost.{remove_by_callback_lost}
use zvbi.Event.Masks.{IsCovered-self}
use zvbi.Event.Registry.{IsRegistry, add-IsRegistry}
use zvbi.Event.Send.{AllLive, IsSettled, wanted, send-wanted}
use zvbi.Event.{Handler, HandlerList, Call, remove_call, add, remove_by_callback, sweep, send}
use zvbi.Prelude.{
  ℕ, ◌≡◌, refl, true, false, ◌&&◌, List, [], ◌∷◌, ◌==◌, if◌then◌else◌, some, returns, arith,
}

abbrev first_handler : Handler
first_handler = record {
  address = 100;
  callback = 1;
  user_data = 7;
  event_mask = 4;
  remove = false;
}

abbrev second_handler : Handler
second_handler = record {
  address = 200;
  callback = 2;
  user_data = 7;
  event_mask = 4;
  remove = false;
}

abbrev two_handlers : HandlerList
two_handlers = record {
  handlers = first_handler ∷ second_handler ∷ [];
  event_mask = 4;
  ref_count = 0;
}

-- A client whose handlers remove themselves.
abbrev once : Handler → ℕ → List Call
once eh type = remove_call eh.address ∷ []

two_handlers-IsSettled : IsSettled two_handlers
unfolding MaskCovers AllLive
two_handlers-IsSettled = ((IsCovered-self 4, (IsCovered-self 4, tt)), (refl, (refl, tt)), refl)

two_handlers-IsRegistry : IsRegistry two_handlers
unfolding IsRegistry
two_handlers-IsRegistry = (refl, (refl, (refl, tt), (refl, tt, tt)))

-- Both are called, and nothing is left.
once_run :
    (send once 3 two_handlers 4)
    ≡ returns (
      record { handlers = []; event_mask = 4; ref_count = 0 },
      first_handler ∷ second_handler ∷ [],
    )
unfolding send
once_run = refl

send-wanted_example :
    send (λ eh t. []) 3 two_handlers 4
    ≡ returns (two_handlers, wanted 4 (first_handler ∷ second_handler ∷ []))
send-wanted_example = send-wanted 3 two_handlers 4 two_handlers-IsSettled (omega arith)

add-IsRegistry_example :
    IsRegistry (add two_handlers 8 2 7 (some 300)).0
    × ((callback' user_data' : ℕ)
        → mask_of callback' user_data' (add two_handlers 8 2 7 (some 300)).0.handlers ≡ (
            if 2 == callback' && 7 == user_data'
            then 8
            else mask_of callback' user_data' (first_handler ∷ second_handler ∷ [])))
add-IsRegistry_example = add-IsRegistry two_handlers 8 2 7 300 two_handlers-IsRegistry

abbrev traversed : HandlerList
traversed = record two_handlers { ref_count = 1 }

remove_by_callback_lost_example :
    (is_found (add (remove_by_callback traversed 1 7) 4 1 7 (some 300)).1 ≡ true)
    × (has_handler 1 7 (sweep (add (remove_by_callback traversed 1 7) 4 1 7 (some 300)).0.handlers)
        ≡ false)
unfolding has_handler
remove_by_callback_lost_example =
    remove_by_callback_lost traversed 4 1 7 (some 300) (omega arith) (λ e. omega (arith, e)) refl
