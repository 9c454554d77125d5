-- ===== src/DeviceForm/Tests.antt =====
-- The sections of two types.
use datacenter_manager.Prelude.{◌≡◌, refl}
use datacenter_manager.DeviceForm.{get_device_form_config}

unknown_type : get_device_form_config "toaster" ≡ get_device_form_config "other"
unfolding get_device_form_config
unknown_type = refl
