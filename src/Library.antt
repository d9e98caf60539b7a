-- ===== src/Library.antt =====
-- The charts that are loaded: include/core/data_manager.h, ChartData::Update and the destructor in
-- src/core/chart_data.cpp, and the imports of src/core/manager.cpp.
use asyncflow.ChartData.{ChartData, new_chart_data}
use asyncflow.Base.{
  ◌+◌, ◌∷◌, ◌==◌, if◌then◌else◌, Option, some, String, List, suc, false, true, ℕ, zero, Bool, none,
  update, put_name, find_name, [],
}
pub mod Import
pub mod Versions
pub mod Reloaded
pub mod Read
pub mod Loads
pub mod Imported
pub mod Loaded
pub mod Deleted

-- The objects and the map of DataManager. `deleted` lists the objects deleted, the latest first.
pub record Library : Type 0 where
  pub chart_datas : ℕ → ChartData
  pub next_chart_data : ℕ
  pub chart_data_dict : List (String × ℕ)
  pub deleted : List ℕ

abbrev pub empty_library : Library
empty_library = record {
  chart_datas = λ p. new_chart_data;
  next_chart_data = 0;
  chart_data_dict = [];
  deleted = [];
}

-- Manager::GetChartData
unfoldable pub get_chart : String → Library → Option ℕ
get_chart name lib = find_name name lib.chart_data_dict

abbrev pub modify_chart_data : ℕ → (ChartData → ChartData) → Library → Library
modify_chart_data p f lib = record lib {
  chart_datas = update lib.chart_datas p (f (lib.chart_datas p));
}

-- Manager::CreateChartData
unfoldable pub create_chart_data : Library → Library × ℕ
create_chart_data lib = (
  record lib {
    chart_datas = update lib.chart_datas lib.next_chart_data new_chart_data;
    next_chart_data = lib.next_chart_data + 1;
  },
  lib.next_chart_data,
)

-- ChartData::Update
unfoldable pub update_version : ℕ → ℕ → Library → Library
update_version old new lib =
    let l1 = modify_chart_data new (λ d. record d { prev = some old }) lib in
    let l2 = modify_chart_data old (λ d. record d { next = some new }) l1 in
    modify_chart_data new (λ d. record d { version = (l2.chart_datas old).version + 1 }) l2

abbrev pub enter_chart : ℕ → Library → Library
enter_chart p lib = record lib {
  chart_data_dict = put_name (lib.chart_datas p).chart_name p lib.chart_data_dict;
}

-- Manager::ReloadChartData
unfoldable pub reload : Option ℕ → Library → Library × Bool
reload none lib = (lib, false)
reload (some p) lib = elim (find_name (lib.chart_datas p).chart_name lib.chart_data_dict) [
  | some old ↦ (enter_chart p (update_version old p lib), true)
  | none ↦ (enter_chart p lib, true)
]

-- `delete data`: the previous versions go first. `none` if the fuel runs out.
unfoldable pub delete_chart_data : ℕ → ℕ → Library → Option Library
delete_chart_data zero p lib = none
delete_chart_data (suc k) p lib = elim (lib.chart_datas p).prev [
  | none ↦ some (record lib { deleted = p ∷ lib.deleted })
  | some q ↦
      let rest = delete_chart_data k q lib in
      if q == p
      then some (record lib { deleted = p ∷ lib.deleted })
      else elim rest [ none ↦ none | some l ↦ some (record l { deleted = p ∷ l.deleted }) ]
]

-- The destructor of DataManager.
unfoldable pub delete_all : ℕ → List (String × ℕ) → Library → Option Library
delete_all k [] lib = some (record lib { chart_data_dict = [] })
delete_all k ((name, p) ∷ dict) lib = elim (delete_chart_data k p lib) [
  | none ↦ none
  | some l ↦ delete_all k dict l
]
