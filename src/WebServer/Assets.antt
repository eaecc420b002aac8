-- ===== src/WebServer/Assets.antt =====
-- The pages and files that cam_reverse/http_server.py serves as they are. What the files hold is a parameter.
use cam_reverse_py.Base.{Text}
use cam_reverse_py.DataView.{Bytes}
use cam_reverse_py.Settings.{codes}

-- What the files of `assets` hold, read when the module is loaded; a page is text in UTF-8.
pub record Assets : Type 0 where
  pub html_template : Text
  pub index_html : Text
  pub config_html : Text
  pub logs_html : Text
  pub style_css : Text
  pub app_js : Text
  pub favicon : Bytes

-- The body of an answer under its content type.
pub data Body : Type 0 where
  text : Text → Text → Body
  gzip : Text → Bytes → Body

unfoldable pub handle_style : Assets → Body
handle_style a = text (codes "text/css") a.style_css

unfoldable pub handle_app_js : Assets → Body
handle_app_js a = text (codes "application/javascript") a.app_js

unfoldable pub handle_settings_page : Assets → Body
handle_settings_page a = text (codes "text/html") a.config_html

unfoldable pub handle_logs_page : Assets → Body
handle_logs_page a = text (codes "text/html") a.logs_html

unfoldable pub handle_favicon : Assets → Body
handle_favicon a = gzip (codes "image/x-icon") a.favicon

unfoldable pub handle_index : Assets → Body
handle_index a = text (codes "text/html") a.index_html
