-- ===== src/Host/Lookup.antt =====
-- What `Get` gives after an `Update`.
use perf_monitor.Prelude.{◌≡◌, refl, ◌∙◌, ap, Bool, true, false, Option, some, if◌then◌else◌}
use perf_monitor.Text.{Bytes, str_eq}
use perf_monitor.Double.{Double}
use perf_monitor.Table.{lookup, bytes_eq, lookup-insert}
use perf_monitor.Host.{HostSnapshot, Hosts, or_empty, renewed, get, update}

module _ {D : Type 0} ⦃d : Double D⦄ where
  or_empty-if :
      (b : Bool) (snap : HostSnapshot D) (o : Option (HostSnapshot D))
      → or_empty (if b then some snap else o) ≡ (if b then snap else or_empty o)
  or_empty-if true snap o = refl
  or_empty-if false snap o = refl

  pub get-update :
      (hosts : Hosts D) (hostname name : Bytes) (snap : HostSnapshot D)
      → get (update hosts hostname snap) name ≡ (
          if str_eq hostname name
          then renewed (get hosts hostname) hostname snap
          else get hosts name)
  unfolding get update
  get-update hosts hostname name snap =
      ap or_empty (lookup-insert hostname name _ hosts)
      ∙ or_empty-if (str_eq hostname name) _ (lookup name hosts)
