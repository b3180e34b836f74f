-- ===== src/Servers/Timeouts.antt =====
-- `DefaultDictWithTimeout` of pr_insight/servers/utils.py. The clock is not code of the repository:
-- each reading of it is an argument, an integer count of some unit. Keys are texts.
use pr_insight.Base.{Bool, Option, none, some, List, [], ◌∷◌, if◌then◌else◌, map, select}
use pr_insight.Base.Int.{ℤ, ◌-ℤ◌, ltb_ℤ}
use pr_insight.Base.Fail.{Outcome, returned, raised, and_then, key_error}
use pr_insight.Base.Text.{Str}
use pr_insight.Base.Dict.{Dict, lookup, insert, erase, has_key}

-- The arguments of the constructor; `default_factory` stands for the value that it makes.
pub record Options (V : Type 0) : Type 0 where
  pub default_factory : Option V
  pub ttl : Option ℤ
  pub refresh_interval : ℤ
  pub update_key_time_on_get : Bool

-- The items of the `defaultdict`, and the private attributes.
pub record Timed (V : Type 0) : Type 0 where
  pub items : Dict V
  pub key_times : Dict ℤ
  pub last_refresh : ℤ

module _ {V : Type 0} (o : Options V) where
  -- `__init__`, at the time `now`
  unfoldable pub new : ℤ → Timed V
  unfolding ◌-ℤ◌
  new now = record { items = []; key_times = []; last_refresh = now -ℤ o.refresh_interval }

  -- `__setitem__`
  unfoldable pub set_item : Str → V → ℤ → Timed V → Timed V
  unfolding insert
  set_item key value now d = record d {
    items = insert key value d.items;
    key_times = insert key now d.key_times;
  }

  -- `__delitem__`
  unfoldable pub del_item : Str → Timed V → Outcome (Timed V)
  unfolding lookup erase
  del_item key d =
      if has_key key d.key_times
      then (if has_key key d.items
          then returned (record d { items = erase key d.items; key_times = erase key d.key_times })
          else raised key_error)
      else raised key_error

  unfoldable pub del_items : List Str → Timed V → Outcome (Timed V)
  unfolding del_item
  del_items [] d = returned d
  del_items (key ∷ keys) d = and_then (del_item key d) (del_items keys)

  -- `to_delete`
  unfoldable pub expired : ℤ → ℤ → Dict ℤ → List Str
  unfolding ◌-ℤ◌
  expired ttl now times = map (λ e. e.0) (select (λ e. ltb_ℤ ttl (now -ℤ e.1)) times)

  abbrev refresh_with : Option ℤ → ℤ → Timed V → Outcome (Timed V)
  refresh_with none now d = returned d
  refresh_with (some ttl) now d =
      if ltb_ℤ o.refresh_interval (now -ℤ d.last_refresh)
      then returned d
      else and_then (del_items (expired ttl now d.key_times) d)
          (λ e. returned (record e { last_refresh = now }))

  -- `__refresh`, at the time `now`
  unfoldable pub refresh : ℤ → Timed V → Outcome (Timed V)
  unfolding del_items expired ◌-ℤ◌
  refresh now d = refresh_with o.ttl now d

  -- `__missing__` of the `defaultdict`, which sets the item that the factory makes
  abbrev missing : Str → ℤ → Timed V → Option V → Outcome (V × Timed V)
  missing key now d none = raised key_error
  missing key now d (some value) = returned (value, set_item key value now d)

  abbrev found : Str → ℤ → Timed V → Option V → Outcome (V × Timed V)
  found key now d none = missing key now d o.default_factory
  found key now d (some value) = returned (value, d)

  abbrev touched : Str → ℤ → Timed V → Timed V
  touched key now d =
      if o.update_key_time_on_get then record d { key_times = insert key now d.key_times } else d

  -- `__getitem__`, which reads the clock up to three times
  unfoldable pub get_item : Str → ℤ → ℤ → ℤ → Timed V → Outcome (V × Timed V)
  unfolding lookup insert refresh set_item
  get_item key t1 t2 t3 d =
      and_then (refresh t2 (touched key t1 d)) (λ e. found key t3 e (lookup key e.items))
