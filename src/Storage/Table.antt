-- ===== src/Storage/Table.antt =====
-- A table of the `redb` database, which is a third-party crate: its operations and what the source
-- relies on of them. A write transaction works on a table value; to commit is to keep the value.
use ironcat.Base.{◌≡◌, refl, Option, none, some, if◌then◌else◌}
use ironcat.Network.Cursor.{Bytes}
use ironcat.Types.Hash.{bytes_eq}

pub record TableOps (V : Type 0) : Type 1 where
  pub Table : Type 0
  pub get : Table → Bytes → Option V
  pub insert : Table → Bytes → V → Table
  pub remove : Table → Bytes → Table
  pub get-insert :
      (t : Table) (k : Bytes) (v : V) (j : Bytes)
      → get (insert t k v) j ≡ (if bytes_eq k j then some v else get t j)
  pub get-remove :
      (t : Table) (k j : Bytes) → get (remove t k) j ≡ (if bytes_eq k j then none else get t j)

-- Tables as functions of the key.
abbrev pub function_table : {V : Type 0} → TableOps V
function_table {V} = record {
  Table = Bytes → Option V;
  get = λ t k. t k;
  insert = λ t k v j. if bytes_eq k j then some v else t j;
  remove = λ t k j. if bytes_eq k j then none else t j;
  get-insert = λ t k v j. refl;
  get-remove = λ t k j. refl;
}
