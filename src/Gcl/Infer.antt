-- ===== src/Gcl/Infer.antt =====
-- `_infer_type`: the type of a value that comes without one.
use dioxide_python.Prelude.{◌&&◌, ◌==◌, length, if◌then◌else◌, ◌++◌}
use dioxide_python.Prelude.Int.{pos, negsuc}
use dioxide_python.Prelude.Result.{Result, ok, err, type_validation, ◌>>=◌}
use dioxide_python.Text.{Text, codes}
use dioxide_python.Gcl.Value.{Value, null, bool, int, float, str, bytes, list, dict, nil, cons}
use dioxide_python.Gcl.Dict.{get}
use dioxide_python.Gcl.TypeName.{is_some}

unfoldable pub infer_type : Value → Result Text
unfolding get
infer_type null = err type_validation
infer_type (bool b) = ok (codes "bool")
infer_type (int (negsuc n)) = ok (codes "int32")
infer_type (int (pos n)) = ok (codes "uint32")
infer_type (float bits) = ok (codes "float256")
infer_type (str s) = ok (codes "string")
infer_type (bytes b) = ok (
    if length b == 32
    then codes "hash"
    else if length b == 36
    then codes "blob"
    else codes "string")
infer_type (list nil) = ok (codes "array<uint32>")
infer_type (list (cons v vs)) = do t ← infer_type v; ok (codes "array<" ++ (t ++ codes ">"))
infer_type (dict es) = ok (
    if is_some (get (str (codes "id")) es) && is_some (get (str (codes "amount")) es)
    then codes "token"
    else codes "struct")
