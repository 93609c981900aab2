-- ===== src/Repository/Pg/Listing.antt =====
-- `List` of internal/repository/pg_notification_repo.go, and the WHERE clause that it builds.
pub mod Pages
pub mod Page
use event_driven_arch.Common.{
  ℕ, ◌-◌, ◌*◌, ◌%◌, String, Bool, true, false, ◌&&◌, List, [], ◌∷◌, ◌++◌, Option, none, some,
  str_eq, length, ok, err, get_elem?, take, drop, select, leb, if◌then◌else◌,
}
use event_driven_arch.Common.Int.{leb_ℤ}
use event_driven_arch.Domain.Errors.{Result, Action, wrapped, foreign}
use event_driven_arch.Domain.Entities.{Time, Notification, ListFilter, is_valid_channel}
use event_driven_arch.Repository.Pg.{status_text, is_status_text, explained}
use event_driven_arch.Repository.Pg.Statements.{Pg, Server, Reply, send, reading}

-- The formats of the conditions: "status = $%d" and so on.
pub data Format : Type 0 where
  status_is channel_is created_from created_to : Format

pub data Arg : Type 0 where
  text : String → Arg
  instant : Time → Arg

-- A condition with the number of its placeholder.
pub record Condition : Type 0 where
  pub format : Format
  pub placeholder : ℕ

pub record Where : Type 0 where
  pub conditions : List Condition
  pub args : List Arg

-- The closure `add`: the placeholder is the number of arguments with the new one.
add : Format → Arg → Where → Where
add f a w =
    let args' = w.args ++ a ∷ [] in
    record {
      conditions = w.conditions ++ record { format = f; placeholder = length args' } ∷ [];
      args = args';
    }

add_text : Format → Option String → Where → Where
unfolding add
add_text f none w = w
add_text f (some s) w = add f (text s) w

add_instant : Format → Option Time → Where → Where
unfolding add
add_instant f none w = w
add_instant f (some t) w = add f (instant t) w

pub build_list_where : ListFilter → Where
unfolding add_text add_instant
build_list_where f = add_instant created_to f.to (
    add_instant created_from f.from (
      add_text channel_is f.channel
        (add_text status_is f.status (record { conditions = []; args = [] }))))

-- What the server makes of a condition and the argument that its placeholder names.
compares : Format → Option Arg → Notification → Bool
compares status_is (some (text s)) n = str_eq (status_text n.status) s
compares channel_is (some (text c)) n = str_eq n.channel c
compares created_from (some (instant t)) n = leb_ℤ t n.created_at
compares created_to (some (instant t)) n = leb_ℤ n.created_at t
compares _ _ n = false

all_hold : List Condition → List Arg → Notification → Bool
unfolding compares
all_hold [] args n = true
all_hold (c ∷ cs) args n =
    compares c.format (get_elem? args (c.placeholder - 1)) n && all_hold cs args n

pub matches : Where → Notification → Bool
unfolding all_hold
matches w n = all_hold w.conditions w.args n

-- A text that is no label of the column's enumeration is refused.
unfoldable pub known_text : (String → Bool) → Option String → Bool
known_text p none = true
known_text p (some s) = p s

-- `int` is 64 bits wide: a product past 2^63 - 1 comes out negative.
pub word : ℕ → ℕ
word n = n % 18446744073709551616

pub offset_of : ListFilter → ℕ
unfolding word
offset_of f = word ((f.page - 1) * f.limit)

is_negative : ℕ → Bool
is_negative n = leb 9223372036854775808 n

pub within : (Time → Bool) → Option Time → Bool
within p none = true
within p (some t) = p t

module _ (server : Server) where
  count_rows : ListFilter → Pg → Reply ℕ
  unfolding matches known_text
  count_rows f p =
      if known_text is_status_text f.status && known_text is_valid_channel f.channel
      then ok (length (select (matches (build_list_where f)) p.rows))
      else err server.bad_value

  page_rows : ListFilter → Pg → Reply (List Notification)
  unfolding matches offset_of is_negative
  page_rows f p =
      if is_negative (offset_of f)
      then err server.negative_offset
      else ok (
          take f.limit (
            drop (offset_of f)
              (server.newest_first f p (select (matches (build_list_where f)) p.rows))))

  -- The second query, after the count.
  list_page : ListFilter → Reply ℕ × Pg → Result (List Notification × ℕ) × Pg
  unfolding page_rows explained
  list_page f (err e, p) = (err (wrapped "count notifications" (foreign e)), p)
  list_page f (ok total, p) =
      let (r, p') =
        send (reading (λ t. elim (page_rows f t) [ ok ns ↦ ok (ns, total) | err e ↦ err e ])) p in
      (explained "list notifications" r, p')

  unfoldable pub list : ListFilter → Action Pg (List Notification × ℕ)
  unfolding count_rows list_page is_status_text
  list f p = list_page f (send (reading (count_rows f)) p)
