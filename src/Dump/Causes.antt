-- ===== src/Dump/Causes.antt =====
-- The enumerations of hprof/hprofdumper/src/main/cpp/include/hprof_dump.h, which are handed to ART.
use xapm.Base.{ℕ}

pub data GcCause : Type 0 where
  gc_cause_none gc_cause_for_alloc gc_cause_background gc_cause_explicit gc_cause_for_native_alloc
        gc_cause_collector_transition gc_cause_disable_moving_gc gc_cause_trim
        gc_cause_instrumentation gc_cause_add_remove_app_image_space gc_cause_debugger
        gc_cause_homogeneous_space_compact gc_cause_class_linker gc_cause_jit_code_cache
        gc_cause_add_remove_system_weak_holder gc_cause_hprof gc_cause_get_objects_allocated
        gc_cause_profile_saver gc_cause_run_empty_checkpoint :
      GcCause

pub gc_cause_value : GcCause → ℕ
gc_cause_value gc_cause_none = 0
gc_cause_value gc_cause_for_alloc = 1
gc_cause_value gc_cause_background = 2
gc_cause_value gc_cause_explicit = 3
gc_cause_value gc_cause_for_native_alloc = 4
gc_cause_value gc_cause_collector_transition = 5
gc_cause_value gc_cause_disable_moving_gc = 6
gc_cause_value gc_cause_trim = 7
gc_cause_value gc_cause_instrumentation = 8
gc_cause_value gc_cause_add_remove_app_image_space = 9
gc_cause_value gc_cause_debugger = 10
gc_cause_value gc_cause_homogeneous_space_compact = 11
gc_cause_value gc_cause_class_linker = 12
gc_cause_value gc_cause_jit_code_cache = 13
gc_cause_value gc_cause_add_remove_system_weak_holder = 14
gc_cause_value gc_cause_hprof = 15
gc_cause_value gc_cause_get_objects_allocated = 16
gc_cause_value gc_cause_profile_saver = 17
gc_cause_value gc_cause_run_empty_checkpoint = 18

pub data CollectorType : Type 0 where
  collector_type_none collector_type_ms collector_type_cms collector_type_ss
        collector_type_heap_trim collector_type_cc collector_type_cc_background
        collector_type_instrumentation collector_type_add_remove_app_image_space
        collector_type_debugger collector_type_homogeneous_space_compact collector_type_class_linker
        collector_type_jit_code_cache collector_type_hprof
        collector_type_add_remove_system_weak_holder collector_type_get_objects_allocated
        collector_type_critical_section :
      CollectorType

pub collector_type_value : CollectorType → ℕ
collector_type_value collector_type_none = 0
collector_type_value collector_type_ms = 1
collector_type_value collector_type_cms = 2
collector_type_value collector_type_ss = 3
collector_type_value collector_type_heap_trim = 4
collector_type_value collector_type_cc = 5
collector_type_value collector_type_cc_background = 6
collector_type_value collector_type_instrumentation = 7
collector_type_value collector_type_add_remove_app_image_space = 8
collector_type_value collector_type_debugger = 9
collector_type_value collector_type_homogeneous_space_compact = 10
collector_type_value collector_type_class_linker = 11
collector_type_value collector_type_jit_code_cache = 12
collector_type_value collector_type_hprof = 13
collector_type_value collector_type_add_remove_system_weak_holder = 14
collector_type_value collector_type_get_objects_allocated = 15
collector_type_value collector_type_critical_section = 16
