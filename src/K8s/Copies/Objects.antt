-- ===== src/K8s/Copies/Objects.antt =====
-- api/v1alpha1/zz_generated.deepcopy.go: the copies of a valve and of a list of valves.
-- The metadata are of apimachinery, with their copies. An object or an array that is new is a value.
use valve_controller.Common.{List, [], ◌∷◌, Option, none, some}
use valve_controller.Device.{Time}
use valve_controller.K8s.{Condition, MqttValveSpec}
use valve_controller.K8s.Copies.{StatusObject, Memory, deep_copy_into}

pub record ValveObject (TypeMeta ObjectMeta : Type 0) : Type 0 where
  pub type_meta : TypeMeta
  pub object_meta : ObjectMeta
  pub spec : MqttValveSpec
  pub status : StatusObject

pub record ValveListObject (TypeMeta ObjectMeta ListMeta : Type 0) : Type 0 where
  pub type_meta : TypeMeta
  pub list_meta : ListMeta
  pub items : Option (List (ValveObject TypeMeta ObjectMeta))

-- The copies of apimachinery.
pub record Copiers (ObjectMeta ListMeta : Type 0) : Type 0 where
  pub copy_time : Time → Time
  pub copy_condition : Condition → Condition
  pub copy_meta : ObjectMeta → ObjectMeta
  pub copy_list_meta : ListMeta → ListMeta

-- `DeepCopyInto` and `DeepCopy` of the spec.
unfoldable pub deep_copy_spec : Option MqttValveSpec → Option MqttValveSpec
deep_copy_spec none = none
deep_copy_spec (some s) = some s

-- `DeepCopy` of a status, where `none` is nil.
unfoldable pub deep_copy_status :
    {O L : Type 0} (by : Copiers O L) → Option StatusObject → Memory → Option StatusObject × Memory
deep_copy_status by none m = (none, m)
deep_copy_status by (some s) m =
    let (s', m') = deep_copy_into by.copy_time by.copy_condition s m in (some s', m')

module _ {T O L : Type 0} (by : Copiers O L) where
  -- `DeepCopyInto` of a valve.
  unfoldable pub deep_copy_valve_into : ValveObject T O → Memory → ValveObject T O × Memory
  deep_copy_valve_into v m =
      let (status, m') = deep_copy_into by.copy_time by.copy_condition v.status m in
      (record v { object_meta = by.copy_meta v.object_meta; status = status }, m')

  -- `DeepCopy` and `DeepCopyObject` of a valve, where `none` is nil.
  unfoldable pub deep_copy_valve :
      Option (ValveObject T O) → Memory → Option (ValveObject T O) × Memory
  deep_copy_valve none m = (none, m)
  deep_copy_valve (some v) m = let (v', m') = deep_copy_valve_into v m in (some v', m')

  -- The loop over the items.
  unfoldable pub copy_items : List (ValveObject T O) → Memory → List (ValveObject T O) × Memory
  copy_items [] m = ([], m)
  copy_items (v ∷ vs) m =
      let (v', m') = deep_copy_valve_into v m in
      let (vs', m'') = copy_items vs m' in (v' ∷ vs', m'')

  -- `DeepCopyInto` of a list.
  unfoldable pub deep_copy_list_into :
      ValveListObject T O L → Memory → ValveListObject T O L × Memory
  deep_copy_list_into l m = elim l.items [
    | none ↦ (record l { list_meta = by.copy_list_meta l.list_meta }, m)
    | some vs ↦
        let (vs', m') = copy_items vs m in
        (record l { list_meta = by.copy_list_meta l.list_meta; items = some vs' }, m')
  ]

  -- `DeepCopy` and `DeepCopyObject` of a list, where `none` is nil.
  unfoldable pub deep_copy_list :
      Option (ValveListObject T O L) → Memory → Option (ValveListObject T O L) × Memory
  deep_copy_list none m = (none, m)
  deep_copy_list (some l) m = let (l', m') = deep_copy_list_into l m in (some l', m')
