-- ===== src/Http/Method.antt =====
-- The connection types of lib/cclhttp.h, as `connection_func` of lib/cclhttp.cc finds them by the
-- length of a method's name.
use cclib.Base.{if◌then◌else◌, ◌==◌, true, false, Bytes, codes, bytes_eq, length}

pub data Method : Type 0 where
  none_method connect_method delete_method get_method head_method options_method post_method
        put_method trace_method :
      Method

abbrev either : Bytes → Bytes → Method → Method → Method
either name method m other = elim (bytes_eq name method) [ true ↦ m | false ↦ other ]

unfoldable pub method_type : Bytes → Method
method_type method =
    let n = length method in
    if n == 3
    then either (codes "GET") method get_method put_method
    else if n == 4
    then either (codes "HEAD") method head_method post_method
    else if n == 5
    then trace_method
    else if n == 6
    then delete_method
    else if n == 7
    then either (codes "CONNECT") method connect_method options_method
    else none_method
