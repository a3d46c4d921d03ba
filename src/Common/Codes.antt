-- ===== src/Common/Codes.antt =====
-- The reserved codes of common/define.go, and GetErrorMessage.
use Prim.Native.String.{String}
use text.Mathlib.Text.{◌==◌ as str_eq}
use newtbig.Prelude.{ℕ, [], ◌∷◌, Option, none, some, nat_eq, Assoc, lookup, if◌then◌else◌}

abbrev pub msg_heartbeat : ℕ
msg_heartbeat = 701

abbrev pub msg_verify : ℕ
msg_verify = 702

abbrev pub msg_kick : ℕ
msg_kick = 704

abbrev pub msg_reg_broat_cast : ℕ
msg_reg_broat_cast = 706

abbrev pub msg_disreg_broat_cast : ℕ
msg_disreg_broat_cast = 707

abbrev pub msg_re_route : ℕ
msg_re_route = 708

abbrev pub msg_heartbeat_rst : ℕ
msg_heartbeat_rst = 801

abbrev pub msg_verify_rst_suc : ℕ
msg_verify_rst_suc = 802

abbrev pub msg_verify_rst_fail : ℕ
msg_verify_rst_fail = 803

abbrev pub msg_kick_rst : ℕ
msg_kick_rst = 804

abbrev pub msg_broat_cast_rst : ℕ
msg_broat_cast_rst = 805

abbrev pub err_server_error : ℕ
err_server_error = 204

abbrev pub err_not_data : ℕ
err_not_data = 205

-- errCodeMap, with Err_OK = 200 up to Err_HandlerFuncErr = 209.
pub err_code_map : Assoc ℕ String
err_code_map =
    (200, "Success")
    ∷ (201, "参数不合法")
    ∷ (202, "非法的用户Id")
    ∷ (203, "未授权")
    ∷ (err_server_error, "没有数据")
    ∷ (err_not_data, "系统错误")
    ∷ (206, "操作失败")
    ∷ (207, "路由不存在")
    ∷ (208, "路由方法返回错误")
    ∷ (209, "路由方法错误")
    ∷ []

or_undefined : Option String → String
or_undefined none = "未定义错误类型!"
or_undefined (some s) = s

pub get_error_message : ℕ → String → String
unfolding err_code_map or_undefined
get_error_message code message =
    if str_eq message "" then or_undefined (lookup code err_code_map) else message
