-- ===== src/Reader/Entry/Dict.antt =====
-- Laws of the dictionary.
use python_systemd.Base.{ℕ, ◌≡◌, some, List, [], ◌∷◌, if◌then◌else◌, arith}
use python_systemd.Base.Bytes.{eq_bytes, eq_bytes_iff}
use python_systemd.Reader.Entry.{Entry, Dict, lookup, set_item, joined, add_value}

pub lookup-set_item :
    (k j : List ℕ) (e : Entry) (dict : Dict)
    → lookup j (set_item k e dict) ≡ (if eq_bytes k j then some e else lookup j dict)
unfolding lookup set_item
lookup-set_item k j e [] = ground arith
lookup-set_item k j e ((i, f) ∷ dict) =
    ground (arith, lookup-set_item k j e dict, eq_bytes_iff i k, eq_bytes_iff i j, eq_bytes_iff k j)

pub lookup-add_value :
    (k j v : List ℕ) (dict : Dict)
    → lookup j (add_value k v dict)
      ≡ (if eq_bytes k j then some (joined (lookup j dict) v) else lookup j dict)
unfolding add_value
lookup-add_value k j v dict =
    ground (arith, lookup-set_item k j (joined (lookup k dict) v) dict, eq_bytes_iff k j)
