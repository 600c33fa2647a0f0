-- ===== src/Event.antt =====
-- src/event.c and event-priv.h: the list of event handlers of a decoder.
pub mod Masks
pub mod Covers
pub mod Entries
pub mod Registry
mod Removals
pub mod Send
pub mod Lost
mod Tests
use zvbi.Prelude.{
  ℕ, zero, suc, ◌+◌, Bool, true, false, not, ◌&&◌, List, [], ◌∷◌, ◌++◌, get_elem?, bit_and, bit_or,
  ltb, ◌==◌, if◌then◌else◌, u32, has_bits, complement, Option, none, some, Outcome, returns,
  out_of_fuel, ◌>>=◌,
}

-- `vbi_event_handler_rec`: `address` is the pointer to it, `callback` and `user_data` those of the
-- client.
pub record Handler : Type 0 where
  pub address : ℕ
  pub callback : ℕ
  pub user_data : ℕ
  pub event_mask : ℕ
  pub remove : Bool

-- `_vbi_event_handler_list`.
pub record HandlerList : Type 0 where
  pub handlers : List Handler
  pub event_mask : ℕ
  pub ref_count : ℕ

-- The loop of `_vbi_event_handler_list_add`, with `event_union` and `found`.
unfoldable pub add_loop :
    ℕ → ℕ → ℕ → ℕ → List Handler → ℕ → Option ℕ → List Handler × (ℕ × Option ℕ)
add_loop ref_count event_mask callback user_data [] event_union found = ([], (event_union, found))
add_loop ref_count event_mask callback user_data (eh ∷ next) event_union found =
    let same = eh.callback == callback && eh.user_data == user_data in
    let kept : Handler = if same then record eh { event_mask = event_mask } else eh in
    let unlinked = add_loop ref_count event_mask callback user_data next event_union found in
    let rest =
      add_loop ref_count event_mask callback user_data next (bit_or event_union kept.event_mask)
        (if same then some eh.address else found) in
    if same && 0 == event_mask
    then (if 0 == ref_count
        then unlinked
        else (record eh { remove = true } ∷ unlinked.0, unlinked.1))
    else (kept ∷ rest.0, rest.1)

-- The rest of it: a new handler goes to the end, in the memory that `vbi_malloc` returns.
unfoldable pub add_end :
    HandlerList → ℕ → ℕ → ℕ → Option ℕ → List Handler → ℕ → Option ℕ → HandlerList × Option ℕ
add_end el event_mask callback user_data memory ehs event_union (some found) =
    (record el { handlers = ehs; event_mask = event_union }, some found)
add_end el event_mask callback user_data none ehs event_union none =
    (record el { handlers = ehs; event_mask = event_union }, none)
add_end el event_mask callback user_data (some address) ehs event_union none =
    if 0 == event_mask then (record el { handlers = ehs; event_mask = event_union }, none) else (
      record el {
        handlers =
            ehs
            ++ (record {
              address = address;
              callback = callback;
              user_data = user_data;
              event_mask = event_mask;
              remove = false;
            }
                ∷ []);
        event_mask = bit_or event_union event_mask;
      },
      some address,
    )

-- `_vbi_event_handler_list_add`.
unfoldable pub add : HandlerList → ℕ → ℕ → ℕ → Option ℕ → HandlerList × Option ℕ
unfolding add_loop add_end
add el event_mask callback user_data memory =
    let walked = add_loop el.ref_count event_mask callback user_data el.handlers 0 none in
    add_end el event_mask callback user_data memory walked.0 walked.1.0 walked.1.1

-- `_vbi_event_handler_list_remove_by_callback`.
unfoldable pub remove_by_callback : HandlerList → ℕ → ℕ → HandlerList
unfolding add
remove_by_callback el callback user_data = (add el 0 callback user_data none).0

-- `_vbi_event_handler_list_remove`.
unfoldable pub remove_handlers : ℕ → ℕ → List Handler → ℕ → List Handler × ℕ
remove_handlers ref_count address [] event_union = ([], event_union)
remove_handlers ref_count address (eh ∷ next) event_union =
    let unlinked = remove_handlers ref_count address next event_union in
    let rest = remove_handlers ref_count address next (bit_or event_union eh.event_mask) in
    if eh.address == address
    then (if 0 == ref_count
        then unlinked
        else (record eh { remove = true } ∷ unlinked.0, unlinked.1))
    else (eh ∷ rest.0, rest.1)

unfoldable pub remove_handler : HandlerList → ℕ → HandlerList
unfolding remove_handlers
remove_handler el address =
    let walked = remove_handlers el.ref_count address el.handlers 0 in
    record el { handlers = walked.0; event_mask = walked.1 }

-- `_vbi_event_handler_list_remove_by_event`.
unfoldable pub clear_masks : ℕ → ℕ → List Handler → List Handler
clear_masks ref_count clear_mask [] = []
clear_masks ref_count clear_mask (eh ∷ next) =
    let cleared : Handler = record eh { event_mask = bit_and eh.event_mask clear_mask } in
    let rest = clear_masks ref_count clear_mask next in
    if 0 == cleared.event_mask
    then (if 0 == ref_count then rest else record cleared { remove = true } ∷ rest)
    else cleared ∷ rest

unfoldable pub remove_by_event : HandlerList → ℕ → HandlerList
unfolding clear_masks
remove_by_event el event_mask =
    let clear_mask = complement event_mask in
    record el {
      handlers = clear_masks el.ref_count clear_mask el.handlers;
      event_mask = bit_and el.event_mask clear_mask;
    }

-- The calls that a callback makes on the list.
pub data Call : Type 0 where
  add_call : ℕ → ℕ → ℕ → Option ℕ → Call
  remove_call : ℕ → Call
  remove_by_event_call : ℕ → Call

unfoldable pub make_call : HandlerList → Call → HandlerList
unfolding add remove_handler remove_by_event
make_call el (add_call event_mask callback user_data memory) =
    (add el event_mask callback user_data memory).0
make_call el (remove_call address) = remove_handler el address
make_call el (remove_by_event_call event_mask) = remove_by_event el event_mask

unfoldable pub make_calls : HandlerList → List Call → HandlerList
unfolding make_call
make_calls el [] = el
make_calls el (c ∷ cs) = make_calls (make_call el c) cs

-- The first loop of `__vbi_event_handler_list_send`: nothing is unlinked before it ends, so that
-- `eh->next` is the next place of the list as it then is. The result lists the handlers that were
-- called. `next` is the rest of the loop.
unfoldable pub call_handler :
    (Handler → ℕ → List Call)
    → ℕ
    → (HandlerList → Outcome (HandlerList × List Handler))
    → HandlerList
    → Option Handler
    → Outcome (HandlerList × List Handler)
unfolding make_calls
call_handler client type next el none = returns (el, [])
call_handler client type next el (some eh) =
    if has_bits eh.event_mask type && not eh.remove
    then (next (make_calls el (client eh type)) >>= (λ r. returns (r.0, eh ∷ r.1)))
    else next el

unfoldable pub call_loop :
    (Handler → ℕ → List Call) → ℕ → ℕ → ℕ → HandlerList → Outcome (HandlerList × List Handler)
unfolding call_handler
call_loop client type zero i el = out_of_fuel
call_loop client type (suc fuel) i el =
    call_handler client type (λ el'. call_loop client type fuel (suc i) el') el
      (get_elem? el.handlers i)

-- The second loop, which unlinks the handlers that were removed.
unfoldable pub sweep : List Handler → List Handler
sweep [] = []
sweep (eh ∷ next) = let rest = sweep next in if eh.remove then rest else eh ∷ rest

-- `__vbi_event_handler_list_send`.
unfoldable pub send :
    (Handler → ℕ → List Call) → ℕ → HandlerList → ℕ → Outcome (HandlerList × List Handler)
unfolding call_loop sweep
send client fuel el type =
    let ref_count = u32 (el.ref_count + 1) in
    if 0 == bit_and el.event_mask type
    then returns (el, [])
    else if 0 == ref_count
    then returns (el, [])
    else (call_loop client type fuel 0 (record el { ref_count = ref_count }) >>= (λ r.
        if ltb 0 el.ref_count
        then returns (record r.0 { ref_count = el.ref_count }, r.1)
        else returns (record r.0 { handlers = sweep r.0.handlers; ref_count = el.ref_count }, r.1)))

-- `_vbi_event_handler_list_init` and `_vbi_event_handler_list_destroy`.
abbrev pub empty_list : HandlerList
empty_list = record { handlers = []; event_mask = 0; ref_count = 0 }
